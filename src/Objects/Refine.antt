-- ===== src/Objects/Refine.antt =====
-- What relates objects that share one memory to as many documents.
use mathlib.Core.Path.{fun_ext}
use ext_encoding.Prelude.{ℕ, ◌+◌, ◌^◌, ◌≤◌, ◌<◌, ◌≡◌, ◌≢◌, refl, ap, ◌∙◌, arith, List, length}
use ext_encoding.Prelude.{Option, none, some, Option-cases, inl, inr, ◌⊎◌}
use ext_encoding.Prelude.Int.{ℤ}
use ext_encoding.Prelude.Word.{wrap}
use ext_encoding.Zend.{Result, ok}
use ext_encoding.Spec.{Document}
use ext_encoding.Serialized.{fetch_properties}
use ext_encoding.Writer.{ByteBufferWriter}
use ext_encoding.Writer.Invariant.{IsValid}
use ext_encoding.Writer.Refine.{view}
use ext_encoding.Session.{cost}
use ext_encoding.Session.Refine.{IsCall}
use ext_encoding.Objects.{
  Ptr, null, Handle, update, WriterObject, World, on_block, put_object, Store, world_view, Event,
  create, destroy, clone_to, construct_with, unserialize_from, call, Outcome,
}
use ext_encoding.Objects.Sound.{
  IsSound, freed, freed-IsSound, world_view-freed, put_object-IsSound, world_view-put_object,
  update_same,
}

-- The allocator returns an address at which nothing is allocated, the object's own block, which it
-- has freed before, aside.
abbrev pub IsFree : World → Handle → Ptr → Type 0
IsFree world h p =
    (p ≢ null)
    × ((world.heap p ≡ none) ⊎ ((o : WriterObject) × (world.objects h ≡ some o) × (o.buffer ≡ p)))

abbrev pub target : Event → Handle
target (create h) = h
target (destroy h) = h
target (clone_to source h) = h
target (construct_with prefix h) = h
target (unserialize_from props h) = h
target (call c h) = h

abbrev pub IsLive : Store → Handle → Type 0
IsLive store h = (d : Document) × (store h ≡ some d)

abbrev pub FitsSize : Option (List ℕ) → Type 0
FitsSize none = Unit
FitsSize (some prefix) = length prefix < 2 ^ 64

abbrev pub FitsOffset : Result (List ℕ × ℤ) → Type 0
FitsOffset (ok (bytes, z)) = (length bytes < 2 ^ 64) × (wrap 64 z ≤ length bytes)
FitsOffset _ = Unit

-- The engine calls the handlers of live objects and makes objects under new handles; sizes stay
-- below 2 ^ 64; and a table has an offset within its bytes.
abbrev pub IsAllowed : Event → Store → Type 0
IsAllowed (create h) store = store h ≡ none
IsAllowed (destroy h) store = IsLive store h
IsAllowed (clone_to source h) store = IsLive store source × (store h ≡ none)
IsAllowed (construct_with prefix h) store = IsLive store h × FitsSize prefix
IsAllowed (unserialize_from props h) store = IsLive store h × FitsOffset (fetch_properties props)
IsAllowed (call c h) store =
    (d : Document) × (store h ≡ some d) × IsCall c × (length d.content + cost c < 2 ^ 64)

abbrev pub Refines : Outcome → Result (Unit {0}) × Store → Type 0
Refines (outcome, world) (outcome', store) =
    (outcome ≡ outcome') × IsSound world × (world_view world ≡ store)

module _ {world : World} (sound : IsSound world) where
  -- What a handle that users see as `d` refers to.
  pub live_object :
      {h : Handle} {d : Document}
      → world_view world h ≡ some d
      → (o : WriterObject) × (block : List ℕ) × (world.objects h ≡ some o)
        × (world.heap o.buffer ≡ some block)
        × IsValid (on_block o block)
        × (view (on_block o block) ≡ d)
  live_object {h} {d} e = elim (Option-cases (world.objects h)) [
    | inl gone ↦ ground (arith, gone)
    | inr (o, there) ↦
        let (block, found, _, valid) = sound.held h o there in
        let seen : view (on_block o block) ≡ d = ground (arith, there, found) in
        (o, block, there, found, valid, seen)
  ]

  pub dead_object : {h : Handle} → world_view world h ≡ none → world.objects h ≡ none
  dead_object {h} e = elim (Option-cases (world.objects h)) [
    | inl gone ↦ gone
    | inr (o, there) ↦
        let (block, found, _, _) = sound.held h o there in ground (arith, there, found)
  ]

  -- A new object.
  pub made :
      {h : Handle} {p : Ptr} {w : ByteBufferWriter} {d : Document}
      → world.objects h ≡ none
      → IsFree world h p
      → IsValid w
      → view w ≡ d
      → Refines (ok tt, put_object h p w world) (ok tt, update (world_view world) h (some d))
  made {h} {p} {w} {d} gone free valid seen =
      let empty_there : world.heap p ≡ none = ground (arith, gone, free) in
      (
        refl,
        put_object-IsSound sound gone free.0 empty_there valid,
        world_view-put_object sound gone free.0 empty_there valid
            ∙ ap (λ (x : Document). update (world_view world) h (some x)) seen,
      )

  -- A live object that gets another block, or keeps its own.
  pub remade :
      {h : Handle} {p : Ptr} {o : WriterObject} {w : ByteBufferWriter} {d : Document}
      (outcome : Result (Unit {0}))
      → world.objects h ≡ some o
      → IsFree world h p
      → IsValid w
      → view w ≡ d
      → Refines
          (outcome, put_object h p w (freed world h o))
          (outcome, update (world_view world) h (some d))
  remade {h} {p} {o} {w} {d} outcome there free valid seen =
      let world' : World = freed world h o in
      let gone : world'.objects h ≡ none = update_same world.objects h none in
      let empty_there : world'.heap p ≡ none = ground (arith, there, free) in
      (
        refl,
        put_object-IsSound (freed-IsSound sound there) gone free.0 empty_there valid,
        world_view-put_object (freed-IsSound sound there) gone free.0 empty_there valid
            ∙ ap (λ (s : Store). update s h (some (view w))) (world_view-freed sound there)
            ∙ (fun_ext λ q. ground arith)
            ∙ ap (λ (x : Document). update (world_view world) h (some x)) seen,
      )
