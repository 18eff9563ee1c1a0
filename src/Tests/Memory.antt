-- ===== src/Tests/Memory.antt =====
-- Objects of a request, from their creation to their release.
use mathlib.Core.Path.{fun_ext}
use ext_encoding.Prelude.{ℕ, suc, ◌≡◌, ◌≢◌, refl, arith, List, [], ◌∷◌, All, none, some, inl, inr}
use ext_encoding.Zend.{Result, ok}
use ext_encoding.Serializers.Contract.{IsSettled}
use ext_encoding.Serializers.Endian.{little_endian}
use ext_encoding.Serializers.Memory.{load, extend_buffer}
use ext_encoding.Writer.{
  writer_init_properties, writer_new, writer_clone, construct, write_byte_array,
}
use ext_encoding.Session.{write_bytes, step, spec_step}
use ext_encoding.Objects.{
  Ptr, World, Event, create, destroy, clone_to, construct_with, call, exec, world_view, new_object,
  writer_free, clone_object, construct_object, call_object, spec_exec,
}
use ext_encoding.Objects.Sound.{IsSound}
use ext_encoding.Objects.Runs.{
  Runs, done, next, empty_world, empty_world-IsSound, spec_events, no_objects, Runs-spec_events,
  Runs-no_objects,
}
use ext_encoding.Tests.Samples.{zeroing, low_bits}

-- An object is made and written to, cloned, the clone constructed anew, and both are freed.
abbrev events : List Event
events =
    create 0
    ∷ call (write_bytes (7 ∷ 8 ∷ [])) 0
    ∷ clone_to 0 1
    ∷ construct_with (some (5 ∷ [])) 1
    ∷ destroy 0
    ∷ destroy 1
    ∷ []

abbrev then_at : Event → Ptr → World → World
then_at event p world = (exec zeroing low_bits little_endian event p world).1

abbrev made : World
made = then_at (create 0) 1 empty_world

abbrev written : World
written = then_at (call (write_bytes (7 ∷ 8 ∷ [])) 0) 2 made

abbrev cloned : World
cloned = then_at (clone_to 0 1) 2 written

abbrev rebuilt : World
rebuilt = then_at (construct_with (some (5 ∷ [])) 1) 2 cloned

abbrev half : World
half = then_at (destroy 0) 3 rebuilt

abbrev last : World
last = then_at (destroy 1) 3 half

abbrev outcomes : List (Result (Unit {0}))
outcomes = ok tt ∷ ok tt ∷ ok tt ∷ ok tt ∷ ok tt ∷ ok tt ∷ []

nonzero : (n : ℕ) → suc n ≢ 0
nonzero n e = omega (arith, e)

a_run : Runs zeroing low_bits little_endian empty_world events outcomes last
unfolding exec new_object writer_new writer_init_properties writer_free clone_object writer_clone
    construct_object call_object step write_byte_array extend_buffer load construct
a_run =
    next empty_world (create 0) 1 (ok tt) made _ _ last (nonzero 0, inl refl) refl refl
      (next made (call (write_bytes (7 ∷ 8 ∷ [])) 0) 2 (ok tt) written _ _ last
        (nonzero 1, inl refl) (_, refl, tt, omega arith) refl
        (next written (clone_to 0 1) 2 (ok tt) cloned _ _ last (nonzero 1, inl refl)
          ((_, refl), refl) refl
          (next cloned (construct_with (some (5 ∷ [])) 1) 2 (ok tt) rebuilt _ _ last
            (nonzero 1, inr (_, refl, refl)) ((_, refl), omega arith) refl
            (next rebuilt (destroy 0) 3 (ok tt) half _ _ last (nonzero 2, inl refl) (_, refl) refl
              (next half (destroy 1) 3 (ok tt) last _ _ last (nonzero 2, inl refl) (_, refl) refl
                (done last))))))

Runs-spec_events_example :
    let (outcomes', store) = spec_events low_bits events (world_view empty_world) in
    (outcomes ≡ outcomes') × All IsSettled outcomes × IsSound last × (world_view last ≡ store)
Runs-spec_events_example = Runs-spec_events empty_world-IsSound a_run

all_freed : (spec_events low_bits events no_objects).1 ≡ no_objects
unfolding spec_events spec_exec spec_step
all_freed = fun_ext λ h. ground arith

Runs-no_objects_example : last.heap ≡ (λ p. none)
Runs-no_objects_example = Runs-no_objects a_run all_freed
