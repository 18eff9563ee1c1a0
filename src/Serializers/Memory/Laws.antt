-- ===== src/Serializers/Memory/Laws.antt =====
-- `extendBuffer` makes room and keeps what the block holds; accesses inside the block have a result.
use ext_encoding.Prelude.{ℕ, ◌+◌, ◌*◌, ◌^◌, ◌≤◌, ◌<◌, ◌≡◌, arith, List, length, take, drop}
use ext_encoding.Prelude.{overwrite, some, ◌++◌, length-append, take-append, length-drop}
use ext_encoding.Prelude.{ap, ◌∙◌, length-overwrite, overwrite-overwrite}
use ext_encoding.Prelude.{ltb, if◌then◌else◌, take-length}
use Prim.Native.Nat.{max}
use ext_encoding.Zend.{Allocator}
use ext_encoding.Serializers.Memory.{Region, load, store, extend_buffer, extended}

-- The block is as long as `length` says, and a write of `n` bytes at the offset wraps no size_t.
pub record HasRoom (m : Region) (n : ℕ) : Type 0 where
  pub block : length m.buffer ≡ m.length
  pub small : m.length < 2 ^ 64
  pub no_wrap : m.offset + n < 2 ^ 64

module _ (alloc : Allocator) (m : Region) (n : ℕ) (h : HasRoom m n) where
  -- The grown block is as long as its length says, and holds the bytes to be written.
  pub extended-HasRoom :
      (length (extended alloc m n).buffer ≡ (extended alloc m n).length)
      × ((extended alloc m n).length < 2 ^ 64)
      × (m.offset + n ≤ (extended alloc m n).length)
      × (m.length ≤ (extended alloc m n).length)
  unfolding extend_buffer
  extended-HasRoom = ground (
    arith,
    alloc.length-erealloc m.buffer (m.offset + n),
    alloc.length-erealloc m.buffer (m.length * 2),
  )

  -- Growing the block keeps the bytes that it held.
  pub extended_keeps : (k : ℕ) → k ≤ m.length → take k (extended alloc m n).buffer ≡ take k m.buffer
  unfolding extend_buffer
  extended_keeps k fits = ground (
    arith,
    alloc.erealloc_keeps m.buffer (m.offset + n) k,
    alloc.erealloc_keeps m.buffer (m.length * 2) k,
  )

-- A block that holds the bytes already is left alone.
pub extended_enough :
    (alloc : Allocator) (m : Region) (n : ℕ) → m.offset + n ≤ m.length → extended alloc m n ≡ m
unfolding extend_buffer
extended_enough alloc m n h = ground arith

pub store_lem :
    (buffer : List ℕ) (offset : ℕ) (src : List ℕ)
    → offset + length src ≤ length buffer
    → store buffer offset src ≡ some (overwrite buffer offset src)
unfolding store
store_lem buffer offset src h = ground arith

pub load_lem :
    (bytes : List ℕ) (offset : ℕ) (found rest : List ℕ)
    → offset ≤ length bytes
    → drop offset bytes ≡ found ++ rest
    → load bytes offset (length found) ≡ some found
unfolding load
load_lem bytes offset found rest h e =
    ground (
      arith,
      length-drop offset bytes,
      ap length e,
      length-append found rest,
      take-append found rest,
    )

pub load_inside :
    (bytes : List ℕ) (offset n : ℕ)
    → offset + n ≤ length bytes
    → load bytes offset n ≡ some (take n (drop offset bytes))
unfolding load
load_inside bytes offset n h = ground arith

-- A store right behind bytes that were just written lengthens them.
pub store_behind :
    (buffer : List ℕ) (offset : ℕ) (xs ys : List ℕ) (i : ℕ)
    → offset + length xs + length ys ≤ length buffer
    → i ≡ offset + length xs
    → store (overwrite buffer offset xs) i ys ≡ some (overwrite buffer offset (xs ++ ys))
store_behind buffer offset xs ys i h e = rw e (
    store_lem (overwrite buffer offset xs) (offset + length xs) ys
      (omega (arith, length-overwrite buffer offset xs))
    ∙ ap some (overwrite-overwrite buffer offset xs ys h))

-- `extendBuffer` of a block of less than 2 ^ 63 bytes, for an end of the write below 2 ^ 64, keeps
-- every byte of the block. It leaves a block that is long enough as it is, and grows any other to
-- twice its length or to what is required, whichever is more.
pub extend_buffer_lem :
    (alloc : Allocator) (buffer : List ℕ) (len offset used_bytes : ℕ)
    → length buffer ≡ len
    → len < 2 ^ 63
    → offset + used_bytes < 2 ^ 64
    → let (buffer', len') = extend_buffer alloc buffer len offset used_bytes in
      (length buffer' ≡ len')
      × (len'
          ≡ (if ltb len (offset + used_bytes) then max (len * 2) (offset + used_bytes) else len))
      × (take len buffer' ≡ buffer)
unfolding extend_buffer
extend_buffer_lem alloc buffer len offset used_bytes block small no_wrap = (
  ground (
    arith,
    alloc.length-erealloc buffer (offset + used_bytes),
    alloc.length-erealloc buffer (len * 2),
  ),
  ground arith,
  extended_keeps alloc (record { buffer = buffer; length = len; offset = offset }) used_bytes
        (record { block = block; small = omega arith; no_wrap = no_wrap }) len (omega arith)
      ∙ (rw (← block) (take-length buffer)),
)
