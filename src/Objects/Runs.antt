-- ===== src/Objects/Runs.antt =====
-- Sequences of events on the objects of a request, from the empty memory to the empty memory.
use mathlib.Core.Path.{fun_ext, subst}
use ext_encoding.Prelude.{◌≡◌, refl, ap, ap₂, sym, ◌∙◌, arith, List, [], ◌∷◌, All}
use ext_encoding.Prelude.{none, some, Option-cases, inl, inr}
use ext_encoding.Zend.{Allocator, Result}
use ext_encoding.Serializers.Contract.{IsSettled}
use ext_encoding.Spec.{Document}
use ext_encoding.Serialized.{fetch_properties_lem}
use ext_encoding.Serializers.Endian.{ByteOrder}
use ext_encoding.Types.{FloatCasts}
use ext_encoding.Session.{
  Call, spec_step, write, write_bytes, seek_to, reserve_bytes, trim_buffer, clear_buffer,
}
use ext_encoding.Objects.{
  Ptr, World, Store, world_view, Event, create, destroy, clone_to, construct_with, unserialize_from,
  call, exec, spec_exec,
}
use ext_encoding.Objects.Sound.{IsSound}
use ext_encoding.Objects.Refine.{IsFree, IsAllowed, Refines, target, dead_object}
use ext_encoding.Objects.Exec.{exec_refines}

-- A run: each event with an address that is free when it comes, and what it returns.
pub data Runs (alloc : Allocator) (casts : FloatCasts) (native : ByteOrder)
    : World → List Event → List (Result (Unit {0})) → World → Type 0 where
  done : (world : World) → Runs alloc casts native world [] [] world
  next :
      (world : World) (event : Event) (p : Ptr) (outcome : Result (Unit {0})) (world' : World)
      (events : List Event) (outcomes : List (Result (Unit {0}))) (last : World)
      → IsFree world (target event) p
      → IsAllowed event (world_view world)
      → exec alloc casts native event p world ≡ (outcome, world')
      → Runs alloc casts native world' events outcomes last
      → Runs alloc casts native world (event ∷ events) (outcome ∷ outcomes) last

unfoldable pub spec_events : FloatCasts → List Event → Store → List (Result (Unit {0})) × Store
spec_events casts [] store = ([], store)
spec_events casts (event ∷ events) store =
    let (outcome, store') = spec_exec casts event store in
    let (outcomes, store'') = spec_events casts events store' in (outcome ∷ outcomes, store'')

abbrev pub no_objects : Store
no_objects h = none

abbrev pub empty_world : World
empty_world = record { heap = λ p. none; objects = λ h. none }

pub empty_world-IsSound : IsSound empty_world
empty_world-IsSound = record {
  held = λ h o e. cc;
  separate = λ h h' o o' e e' s. cc;
  owned = λ p block e. cc;
}

-- The specification of an allowed event has an outcome.
spec_step-IsSettled :
    (casts : FloatCasts) (c : Call) (d : Document) → IsSettled (spec_step casts c d).0
unfolding spec_step
spec_step-IsSettled casts (write c z) d = tt
spec_step-IsSettled casts (write_bytes bytes) d = tt
spec_step-IsSettled casts (seek_to z) d = ground arith
spec_step-IsSettled casts (reserve_bytes z) d = ground arith
spec_step-IsSettled casts trim_buffer d = tt
spec_step-IsSettled casts clear_buffer d = tt

spec_exec-IsSettled :
    (casts : FloatCasts) (event : Event) (store : Store)
    → IsAllowed event store
    → IsSettled (spec_exec casts event store).0
unfolding spec_exec
spec_exec-IsSettled casts (create h) store allowed = tt
spec_exec-IsSettled casts (destroy h) store allowed = tt
spec_exec-IsSettled casts (clone_to source h) store allowed = tt
spec_exec-IsSettled casts (construct_with prefix h) store allowed = tt
spec_exec-IsSettled casts (unserialize_from props h) store allowed =
    elim (fetch_properties_lem props) [
      | inl (e, fails) ↦ ground (arith, fails)
      | inr (bytes, z, fetched, _, _) ↦ ground (arith, fetched)
    ]
spec_exec-IsSettled casts (call c h) store (d, live, _, _) =
    ground (arith, live, spec_step-IsSettled casts c d)

module _ {alloc : Allocator} {casts : FloatCasts} {native : ByteOrder} where
  -- Where each object owns an allocated block of its own and no block is without an owner, any run
  -- of creations, clones, calls of `__construct`, `__unserialize` and the other methods that change
  -- a writer, and releases returns what the specification on separate documents returns, no fault
  -- among it, and ends in memory of that kind in which users see what the specification holds. In a
  -- run the allocator returns addresses that are free, the engine calls the handlers of live
  -- objects and makes objects under new handles, the arguments are PHP values, sizes stay below 2 ^
  -- 64, and an offset that is unserialized lies within its bytes.
  pub Runs-spec_events :
      {world last : World} {events : List Event} {outcomes : List (Result (Unit {0}))}
      → IsSound world
      → Runs alloc casts native world events outcomes last
      → let (outcomes', store) = spec_events casts events (world_view world) in
        (outcomes ≡ outcomes') × All IsSettled outcomes × IsSound last × (world_view last ≡ store)
  unfolding spec_events
  Runs-spec_events sound (done world) = (refl, tt, sound, refl)
  Runs-spec_events sound
        (next world event p outcome world' events outcomes last free allowed ran run) =
      let (same, sound', viewed) =
        subst (λ x. Refines x (spec_exec casts event (world_view world))) ran
          (exec_refines alloc casts native sound event p free allowed) in
      let (sames, settled, sound'', viewed') = Runs-spec_events sound' run in
      (
        ap₂ ◌∷◌ same (sames ∙ ap (λ (s : Store). (spec_events casts events s).0) viewed),
        (
          subst IsSettled (sym same) (spec_exec-IsSettled casts event (world_view world) allowed),
          settled,
        ),
        sound'',
        viewed' ∙ ap (λ (s : Store). (spec_events casts events s).1) viewed,
      )

-- Without objects nothing is allocated.
pub sound-empty :
    {world : World} → IsSound world → world_view world ≡ no_objects → world.heap ≡ (λ p. none)
sound-empty {world} sound e = fun_ext λ p. elim (Option-cases (world.heap p)) [
  | inl free ↦ free
  | inr (block, there) ↦
      let (h, o, found, _) = sound.owned p block there in
      let gone = dead_object sound {h = h} (ap (λ (s : Store). s h) e) in
      let clash : none ≡ some o = sym gone ∙ found in cc
]

-- A run of creations, clones, calls and releases of writers, with the conditions that `Runs`
-- states, that starts in empty memory and after which no object is left in the specification,
-- leaves no block allocated.
pub Runs-no_objects :
    {alloc : Allocator} {casts : FloatCasts} {native : ByteOrder} {last : World}
    {events : List Event} {outcomes : List (Result (Unit {0}))}
    → Runs alloc casts native empty_world events outcomes last
    → (spec_events casts events no_objects).1 ≡ no_objects
    → last.heap ≡ (λ p. none)
Runs-no_objects run all_freed =
    let (_, _, sound, viewed) = Runs-spec_events empty_world-IsSound run in
    sound-empty sound (viewed ∙ all_freed)
