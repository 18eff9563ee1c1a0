-- ===== src/Objects/Sound.antt =====
-- Which blocks the objects of writers own, and what freeing and making an object does to that.
use mathlib.Core.Path.{fun_ext, subst}
use ext_encoding.Prelude.{ℕ, ◌≡◌, ◌≢◌, ap, sym, ◌∙◌, arith, List, none, some, ◌==◌}
use ext_encoding.Prelude.{Bool-cases, Option-cases, inl, inr}
use ext_encoding.Zend.{ok}
use ext_encoding.Writer.{ByteBufferWriter}
use ext_encoding.Writer.Invariant.{IsValid}
use ext_encoding.Writer.Refine.{view}
use ext_encoding.Objects.{
  Ptr, null, Handle, Heap, update, WriterObject, World, on_block, placed, put_object, writer_free,
  world_view,
}

pub update_same : {A : Type 0} (f : ℕ → A) (p : ℕ) (a : A) → update f p a p ≡ a
update_same f p a = ground arith

pub update_other : {A : Type 0} (f : ℕ → A) (p q : ℕ) (a : A) → q ≢ p → update f p a q ≡ f q
update_other f p q a h = ground arith

-- The block of an object is allocated, and holds a valid writer.
abbrev pub IsHeld : Heap → WriterObject → Type 0
IsHeld heap o =
    (block : List ℕ) × (heap o.buffer ≡ some block) × (o.buffer ≢ null) × IsValid (on_block o block)

pub record IsSound (world : World) : Type 0 where
  pub held : (h : Handle) (o : WriterObject) → world.objects h ≡ some o → IsHeld world.heap o
  pub separate :
      (h h' : Handle) (o o' : WriterObject)
      → world.objects h ≡ some o
      → world.objects h' ≡ some o'
      → o.buffer ≡ o'.buffer
      → h ≡ h'
  pub owned :
      (p : Ptr) (block : List ℕ)
      → world.heap p ≡ some block
      → (h : Handle) × (o : WriterObject) × (world.objects h ≡ some o) × (o.buffer ≡ p)

-- The world behind `writer_free` of `o`, which has the handle `h`.
abbrev pub freed : World → Handle → WriterObject → World
freed world h o = record {
  heap = update world.heap o.buffer none;
  objects = update world.objects h none;
}

module _ {world : World} (sound : IsSound world) where
  pub writer_free-ok :
      {h : Handle} {o : WriterObject}
      → world.objects h ≡ some o
      → writer_free h world ≡ ok (freed world h o)
  unfolding writer_free
  writer_free-ok {h} {o} e = let (block, found, _, _) = sound.held h o e in ground (arith, e, found)

  -- What is left of the objects does not use the block.
  kept :
      {h : Handle} {o : WriterObject}
      → world.objects h ≡ some o
      → (q : Handle) (o' : WriterObject) → (freed world h o).objects q ≡ some o'
      → (world.objects q ≡ some o') × (q ≢ h) × (o'.buffer ≢ o.buffer)
  kept {h} {o} e q o' f = ground (arith, sound.separate q h o' o)

  pub freed-IsSound :
      {h : Handle} {o : WriterObject} → world.objects h ≡ some o → IsSound (freed world h o)
  freed-IsSound {h} {o} e = record {
    held = λ q o' f.
        let (was, other, apart) = kept e q o' f in
        let (block, found, live, valid) = sound.held q o' was in
        (block, update_other world.heap o.buffer o'.buffer none apart ∙ found, live, valid);
    separate = λ q q' a b f g s. sound.separate q q' a b (kept e q a f).0 (kept e q' b g).0 s;
    owned = λ p block f.
        let was : (world.heap p ≡ some block) × (p ≢ o.buffer) = ground arith in
        let (q, a, found, there) = sound.owned p block was.0 in
        (q, a, ground (arith, e, found, there), there);
  }

  pub world_view-freed :
      {h : Handle} {o : WriterObject}
      → world.objects h ≡ some o
      → world_view (freed world h o) ≡ update (world_view world) h none
  world_view-freed {h} {o} e = fun_ext λ q. elim (Option-cases (world.objects q)) [
    | inl free ↦ ground (arith, free)
    | inr (a, was) ↦ ground (arith, was, sound.separate q h a o was e)
  ]

module _ {world : World} (sound : IsSound world) {h : Handle} {p : Ptr} {w : ByteBufferWriter}
    (fresh : world.objects h ≡ none) (live : p ≢ null) (free : world.heap p ≡ none)
    (valid : IsValid w) where
  -- No other object has its block at the new address.
  apart : (q : Handle) (o : WriterObject) → world.objects q ≡ some o → o.buffer ≢ p
  apart q o e s =
      let (block, found, _, _) = sound.held q o e in
      let there : none ≡ some block = sym free ∙ (ap world.heap (sym s) ∙ found) in cc

  pub put_object-IsSound : IsSound (put_object h p w world)
  put_object-IsSound = record {
    held = λ q o e. elim (Bool-cases (q == h)) [
      | inl same ↦
          let new : placed p w ≡ o = ground (arith, same, e) in
          subst (IsHeld (update world.heap p (some w.buffer))) new
            (w.buffer, update_same world.heap p (some w.buffer), live, valid)
      | inr other ↦
          let was : world.objects q ≡ some o = ground (arith, other, e) in
          let (block, found, there, sound_block) = sound.held q o was in
          (
            block,
            update_other world.heap p o.buffer (some w.buffer) (apart q o was) ∙ found,
            there,
            sound_block,
          )
    ];
    separate = λ q q' a b f g s. ground (arith, apart q a, apart q' b, sound.separate q q' a b);
    owned = λ r block f. elim (Bool-cases (r == p)) [
      | inl same ↦
          let at : p ≡ r = ground (arith, same) in
          (h, placed p w, update_same world.objects h (some (placed p w)), at)
      | inr other ↦
          let was : world.heap r ≡ some block = ground (arith, other, f) in
          let (q, o, found, there) = sound.owned r block was in
          (q, o, ground (arith, fresh, found), there)
    ];
  }

  pub world_view-put_object :
      world_view (put_object h p w world) ≡ update (world_view world) h (some (view w))
  world_view-put_object = fun_ext λ q. elim (Option-cases (world.objects q)) [
    | inl none_there ↦ ground (arith, none_there)
    | inr (a, was) ↦ ground (arith, was, apart q a was)
  ]
