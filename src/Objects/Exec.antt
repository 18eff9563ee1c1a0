-- ===== src/Objects/Exec.antt =====
-- Each event, and any sequence of events, against the specification; and what is left allocated.
use mathlib.Core.Path.{subst}
use ext_encoding.Prelude.{ℕ, ◌^◌, ◌≤◌, ◌<◌, ◌≡◌, refl, ap, ap₂, sym, ◌∙◌, arith, List, [], length}
use ext_encoding.Prelude.{Option, none, some, ◌==◌, Bool-cases, inl, inr, take-length}
use ext_encoding.Prelude.Word.{wrap}
use ext_encoding.Zend.{Allocator, Result, ok, throw, HashTable}
use ext_encoding.Spec.{Document}
use ext_encoding.Serialized.{fetch_properties, fetch_properties_lem}
use ext_encoding.Serializers.Endian.{ByteOrder}
use ext_encoding.Types.{FloatCasts}
use ext_encoding.Writer.{ByteBufferWriter, writer_init_properties, writer_new, construct}
use ext_encoding.Writer.Invariant.{IsValid, writer_init_properties_lem}
use ext_encoding.Writer.Refine.{view, length-view}
use ext_encoding.Writer.Methods.{construct-put, writer_clone-view, document_eq}
use ext_encoding.Session.{Call, step, spec_step}
use ext_encoding.Session.Refine.{step_refines}
use ext_encoding.Objects.{
  Ptr, Handle, update, World, on_block, put_object, writer_free, Store, world_view, Event, create,
  destroy, clone_to, construct_with, unserialize_from, call, exec, spec_exec, constructed, Outcome,
  new_object, clone_object, construct_object, unserialize_object, call_object, place, after_free,
  address, store_step, free_outcome,
}
use ext_encoding.Objects.Sound.{IsSound, freed, writer_free-ok, freed-IsSound, world_view-freed}
use ext_encoding.Objects.Refine.{
  IsFree, target, IsLive, FitsSize, FitsOffset, IsAllowed, Refines, live_object, dead_object, made,
  remade,
}

-- `writer_new` and `__construct` make a valid writer of their argument.
constructed_lem :
    (alloc : Allocator) (prefix : Option (List ℕ))
    → FitsSize prefix
    → (w : ByteBufferWriter) × (construct alloc prefix ≡ ok w)
      × IsValid w
      × (view w ≡ constructed prefix)
constructed_lem alloc (some prefix) small = construct-put alloc prefix small
constructed_lem alloc none small =
    let (w, made, content, used, offset, valid) =
      writer_init_properties_lem alloc [] 0 0 (omega arith) (omega arith) in
    (w, unfold construct in made, valid (omega arith), document_eq content offset)

along :
    {a a' : Outcome} {b b' : Result (Unit {0}) × Store}
    → a ≡ a'
    → b ≡ b'
    → Refines a' b'
    → Refines a b
along {a' = a'} {b = b} e f r = subst (λ x. Refines x b) (sym e) (subst (Refines a') (sym f) r)

module _ (alloc : Allocator) (casts : FloatCasts) (native : ByteOrder) {world : World}
    (sound : IsSound world) where
  new_refines :
      (h : Handle) (p : Ptr)
      → IsFree world h p
      → world_view world h ≡ none
      → Refines (new_object alloc h p world) (spec_exec casts (create h) (world_view world))
  unfolding new_object spec_exec construct writer_new
  new_refines h p free gone =
      let (w, made_w, valid, seen) = constructed_lem alloc none tt in
      along (ap (λ r. place h p r world) made_w) refl
        (made sound (dead_object sound gone) free valid seen)

  clone_refines :
      (source h : Handle) (p : Ptr)
      → IsFree world h p
      → IsLive (world_view world) source
      → world_view world h ≡ none
      → Refines
          (clone_object alloc source h p world)
          (spec_exec casts (clone_to source h) (world_view world))
  unfolding clone_object spec_exec
  clone_refines source h p free (d, live) gone =
      let (o, block, there, found, valid, seen) = live_object sound live in
      let (w, made_w, valid', seen') = writer_clone-view alloc valid in
      along (ground (arith, there, found, made_w))
        (ap (λ x. (ok tt, update (world_view world) h x)) live)
        (made sound (dead_object sound gone) free valid' (seen' ∙ seen))

  destroy_refines :
      (h : Handle)
      → IsLive (world_view world) h
      → Refines
          (free_outcome (writer_free h world) world)
          (spec_exec casts (destroy h) (world_view world))
  unfolding spec_exec
  destroy_refines h (d, live) =
      let (o, block, there, found, valid, seen) = live_object sound live in
      along (ap (λ r. free_outcome r world) (writer_free-ok sound there)) refl
        (refl, freed-IsSound sound there, world_view-freed sound there)

  -- `free` and another block.
  replace_refines :
      (h : Handle) (p : Ptr) (r : Result ByteBufferWriter) {w : ByteBufferWriter} {d : Document}
      → IsFree world h p
      → IsLive (world_view world) h
      → r ≡ ok w
      → IsValid w
      → view w ≡ d
      → Refines
          (after_free (writer_free h world) world λ world'. place h p r world')
          (ok tt, update (world_view world) h (some d))
  replace_refines h p r {w} {d} free (_, live) made_w valid seen =
      let (o, block, there, found, _, _) = live_object sound live in
      along
        (ap₂ (λ f r. after_free f world λ world'. place h p r world') (writer_free-ok sound there)
          made_w)
        refl (remade sound (ok tt) there free valid seen)

  construct_refines :
      (prefix : Option (List ℕ)) (h : Handle) (p : Ptr)
      → IsFree world h p
      → IsLive (world_view world) h
      → FitsSize prefix
      → Refines
          (construct_object alloc prefix h p world)
          (spec_exec casts (construct_with prefix h) (world_view world))
  unfolding construct_object spec_exec
  construct_refines prefix h p free live small =
      let (w, made_w, valid, seen) = constructed_lem alloc prefix small in
      replace_refines h p (construct alloc prefix) free live made_w valid seen

  unserialize_refines :
      (props : HashTable) (h : Handle) (p : Ptr)
      → IsFree world h p
      → IsLive (world_view world) h
      → FitsOffset (fetch_properties props)
      → Refines
          (unserialize_object alloc props h p world)
          (spec_exec casts (unserialize_from props h) (world_view world))
  unfolding unserialize_object spec_exec
  unserialize_refines props h p free live fits = elim (fetch_properties_lem props) [
    | inl (e, fails) ↦
        along {a' = (throw e, world)} {b' = (throw e, world_view world)} (ground (arith, fails))
          (ground (arith, fails)) (refl, sound, refl)
    | inr (bytes, z, fetched, _, _) ↦
        let fits' : (length bytes < 2 ^ 64) × (wrap 64 z ≤ length bytes) =
          subst FitsOffset fetched fits in
        let (w, made_w, content, used, offset, valid) =
          writer_init_properties_lem alloc bytes (length bytes) (wrap 64 z) (omega arith) fits'.0 in
        along (ground (arith, fetched)) (ground (arith, fetched)) (
          replace_refines h p (writer_init_properties alloc bytes (length bytes) (wrap 64 z)) free
            live made_w (valid fits'.1) (document_eq (content ∙ take-length bytes) offset))
  ]

  call_refines :
      (c : Call) (h : Handle) (p : Ptr)
      → IsFree world h p
      → IsAllowed (call c h) (world_view world)
      → Refines
          (call_object (step alloc casts native c) h p world)
          (spec_exec casts (call c h) (world_view world))
  unfolding call_object spec_exec
  call_refines c h p free (d, live, is_call, room) =
      let (o, block, there, found, valid, seen) = live_object sound live in
      let w : ByteBufferWriter = on_block o block in
      let w' : ByteBufferWriter = (step alloc casts native c w).1 in
      let size : length d.content ≡ o.used =
        ap (λ (x : Document). length x.content) (sym seen) ∙ length-view valid in
      let (same, valid', seen', _) =
        step_refines alloc casts native c is_call valid (omega (arith, size)) in
      let place_free : IsFree world h (address o w' p) = elim (Bool-cases (w'.length == o.length)) [
        | inl kept ↦
            let (_, _, live_there, _) = sound.held h o there in
            rw kept (live_there, inr (o, there, refl))
        | inr moved ↦ rw moved free
      ] in
      let ran : call_object (step alloc casts native c) h p world
          ≡ ((step alloc casts native c w).0, put_object h (address o w' p) w' (freed world h o)) =
        ground (arith, there, found, writer_free-ok sound there) in
      let (_, sound', viewed) =
        remade sound (step alloc casts native c w).0 there place_free valid'
          (seen' ∙ ap (λ (x : Document). (spec_step casts c x).1) seen) in
      along ran (ap (λ x. store_step x casts c h (world_view world)) live)
        (same ∙ ap (λ (x : Document). (spec_step casts c x).0) seen, sound', viewed)

  -- An event on sound memory, with the address that the allocator chooses, has the outcome and the
  -- effect that the specification gives.
  pub exec_refines :
      (event : Event) (p : Ptr)
      → IsFree world (target event) p
      → IsAllowed event (world_view world)
      → Refines (exec alloc casts native event p world) (spec_exec casts event (world_view world))
  unfolding exec
  exec_refines (create h) p free allowed = new_refines h p free allowed
  exec_refines (destroy h) p free allowed = destroy_refines h allowed
  exec_refines (clone_to source h) p free allowed =
      clone_refines source h p free allowed.0 allowed.1
  exec_refines (construct_with prefix h) p free allowed =
      construct_refines prefix h p free allowed.0 allowed.1
  exec_refines (unserialize_from props h) p free allowed =
      unserialize_refines props h p free allowed.0 allowed.1
  exec_refines (call c h) p free allowed = call_refines c h p free allowed
