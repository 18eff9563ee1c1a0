-- ===== src/Serializers/Contract.antt =====
-- What the serializers promise to their callers: to write given bytes at the offset, to read them
-- back, and never to leave the buffer. The functions of `Fixed`, `Triad` and `VarInt` meet it, and
-- their callers use nothing else of them.
use ext_encoding.Prelude.{ℕ, ◌+◌, ◌^◌, ◌≤◌, ◌<◌, ◌≡◌, List, ◌++◌, Option, some}
use ext_encoding.Prelude.{length, drop, overwrite}
use ext_encoding.Zend.{Allocator, Reading, Result, ok, throw, fault, stuck}
use ext_encoding.Serializers.Memory.{Region, extended}
use ext_encoding.Serializers.Memory.Laws.{HasRoom}

-- The region after `bytes` were written at the offset, behind a reservation of `reserve` bytes.
abbrev pub written : Allocator → Region → ℕ → List ℕ → Region
written alloc m reserve bytes =
    let m' = extended alloc m reserve in
    record m' { buffer = overwrite m'.buffer m.offset bytes; offset = m.offset + length bytes }

-- A write function puts `bytes` at the offset, on every region with room for `reserve` bytes.
pub record Writes (alloc : Allocator) (write : Region → Option Region) (reserve : ℕ)
    (bytes : List ℕ) : Type 0 where
  pub fits : length bytes ≤ reserve
  pub writes : (m : Region) → HasRoom m reserve → write m ≡ some (written alloc m reserve bytes)

-- A read function finds `value` where `bytes` stand, and moves the offset behind them.
abbrev pub Reads : {A : Type 0} → (List ℕ → ℕ → Reading A) → List ℕ → A → Type 0
Reads read bytes value =
    (input : List ℕ) (offset : ℕ) (rest : List ℕ)
    → offset ≤ length input
    → length input < 2 ^ 64
    → drop offset input ≡ bytes ++ rest
    → read input (length input) offset ≡ (ok value, offset + length bytes)

-- An outcome of the program, and no access outside the buffer.
abbrev pub IsSettled : {A : Type 0} → Result A → Type 0
IsSettled (ok a) = Unit
IsSettled (throw e) = Unit
IsSettled fault = ⊥
IsSettled stuck = ⊥

-- From an offset within the input a read function settles, moves the offset forward if at all, and
-- leaves it within the input.
abbrev pub Settles : {A : Type 0} → (List ℕ → ℕ → Reading A) → Type 0
Settles read =
    (input : List ℕ) (offset : ℕ)
    → offset ≤ length input
    → length input < 2 ^ 64
    → let (outcome, offset') = read input (length input) offset in
      IsSettled outcome × (offset ≤ offset') × (offset' ≤ length input)

-- A value is only had for bytes.
abbrev pub Moves : {A : Type 0} → Result A → ℕ → ℕ → Type 0
Moves (ok a) offset offset' = offset < offset'
Moves _ offset offset' = Unit

-- A read function that finds a value moves the offset forward.
abbrev pub Advances : {A : Type 0} → (List ℕ → ℕ → Reading A) → Type 0
Advances read =
    (input : List ℕ) (offset : ℕ)
    → offset ≤ length input
    → length input < 2 ^ 64
    → let (outcome, offset') = read input (length input) offset in Moves outcome offset offset'
