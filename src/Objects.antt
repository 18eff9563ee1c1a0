-- ===== src/Objects.antt =====
-- Objects of ByteBufferWriter in the memory of a request: create_object, clone_obj and free_obj of
-- classes/ByteBufferWriter.cpp, and the methods that give a block back, at the level of pointers. The
-- struct holds the address of its block, and several objects share one heap.
pub mod Sound
pub mod Refine
pub mod Exec
pub mod Runs
use ext_encoding.Prelude.{
  ℕ, List, [], ◌∷◌, Option, none, some, ◌==◌, if◌then◌else◌, length, ◌≡◌, refl,
}
use ext_encoding.Prelude.Word.{wrap}
use ext_encoding.Zend.{Allocator, Result, ok, throw, fault, stuck, HashTable}
use ext_encoding.Spec.{Document, put, empty}
use ext_encoding.Serialized.{fetch_properties}
use ext_encoding.Serializers.Endian.{ByteOrder}
use ext_encoding.Types.{FloatCasts}
use ext_encoding.Writer.{
  ByteBufferWriter, writer_init_properties, writer_new, writer_clone, construct,
}
use ext_encoding.Writer.Refine.{view}
use ext_encoding.Session.{Call, step, spec_step}

abbrev pub Ptr : Type 0
Ptr = ℕ

abbrev pub null : Ptr
null = 0

-- What the engine uses to tell objects apart.
abbrev pub Handle : Type 0
Handle = ℕ

-- The blocks that are allocated, by address.
abbrev pub Heap : Type 0
Heap = Ptr → Option (List ℕ)

abbrev pub update : {A : Type 0} → (ℕ → A) → ℕ → A → ℕ → A
update f p a q = if q == p then a else f q

-- `byte_buffer_writer_t`
pub record WriterObject : Type 0 where
  pub buffer : Ptr
  pub length : ℕ
  pub offset : ℕ
  pub used : ℕ

pub record World : Type 0 where
  pub heap : Heap
  pub objects : Handle → Option WriterObject

-- The struct with its block, and the struct of a writer whose block lies at `p`.
abbrev pub on_block : WriterObject → List ℕ → ByteBufferWriter
on_block o block = record { buffer = block; length = o.length; offset = o.offset; used = o.used }

abbrev pub loaded : Heap → WriterObject → Option ByteBufferWriter
loaded heap o = elim (heap o.buffer) [ none ↦ none | some block ↦ some (on_block o block) ]

abbrev pub placed : Ptr → ByteBufferWriter → WriterObject
placed p w = record { buffer = p; length = w.length; offset = w.offset; used = w.used }

-- The block at `p` and the fields of an object.
abbrev pub put_object : Handle → Ptr → ByteBufferWriter → World → World
put_object h p w world = record {
  heap = update world.heap p (some w.buffer);
  objects = update world.objects h (some (placed p w));
}

-- `efree` of the block of an object: a fault unless one is allocated at the address.
unfoldable pub writer_free : Handle → World → Result World
writer_free h world = elim (world.objects h) [
  | none ↦ fault
  | some o ↦ elim (world.heap o.buffer) [
    | none ↦ fault
    | some block ↦
        ok
          (record { heap = update world.heap o.buffer none; objects = update world.objects h none })
  ]
]

-- What a call leaves, from the world that it starts in.
abbrev pub Outcome : Type 0
Outcome = Result (Unit {0}) × World

-- `writer_init_properties` of an object, with the address that `emalloc` returns.
abbrev pub place : Handle → Ptr → Result ByteBufferWriter → World → Outcome
place h p (ok w) world = (ok tt, put_object h p w world)
place h p (throw e) world = (throw e, world)
place h p fault world = (fault, world)
place h p stuck world = (stuck, world)

abbrev pub after_free : Result World → World → (World → Outcome) → Outcome
after_free (ok world') world f = f world'
after_free (throw e) world f = (throw e, world)
after_free fault world f = (fault, world)
after_free stuck world f = (stuck, world)

-- `writer_new` and `writer_clone` make the object `h`.
unfoldable pub new_object : Allocator → Handle → Ptr → World → Outcome
new_object alloc h p world = place h p (writer_new alloc) world

abbrev pub clone_loaded : Allocator → Option ByteBufferWriter → Handle → Ptr → World → Outcome
clone_loaded alloc none h p world = (fault, world)
clone_loaded alloc (some w) h p world = place h p (writer_clone alloc w) world

abbrev pub load_object : Handle → World → Option ByteBufferWriter
load_object h world = elim (world.objects h) [ none ↦ none | some o ↦ loaded world.heap o ]

unfoldable pub clone_object : Allocator → Handle → Handle → Ptr → World → Outcome
clone_object alloc source h p world = clone_loaded alloc (load_object source world) h p world

-- `__construct` frees the block that `writer_new` made, and makes another.
unfoldable pub construct_object : Allocator → Option (List ℕ) → Handle → Ptr → World → Outcome
construct_object alloc prefix h p world =
    after_free (writer_free h world) world λ world'. place h p (construct alloc prefix) world'

-- `__unserialize` does so behind the checks of the table.
unfoldable pub unserialize_object : Allocator → HashTable → Handle → Ptr → World → Outcome
unserialize_object alloc props h p world = elim (fetch_properties props) [
  | ok (bytes, offset) ↦ after_free (writer_free h world) world λ world'.
      place h p (writer_init_properties alloc bytes (length bytes) (wrap 64 offset)) world'
  | throw e ↦ (throw e, world)
  | fault ↦ (fault, world)
  | stuck ↦ (stuck, world)
]

-- A method on the block of an object. `erealloc` frees the block and makes another, with the address
-- `p`; a method that does not call it, which leaves the length as it was, works in place.
abbrev pub address : WriterObject → ByteBufferWriter → Ptr → Ptr
address o w p = if w.length == o.length then o.buffer else p

abbrev pub call_loaded :
    Result (Unit {0}) × ByteBufferWriter → WriterObject → Handle → Ptr → World → Outcome
call_loaded (outcome, w) o h p world =
    after_free (writer_free h world) world
      λ world'. (outcome, put_object h (address o w p) w world')

unfoldable pub call_object :
    (ByteBufferWriter → Result (Unit {0}) × ByteBufferWriter) → Handle → Ptr → World → Outcome
call_object method h p world = elim (world.objects h) [
  | none ↦ (fault, world)
  | some o ↦ elim (loaded world.heap o) [
    | none ↦ (fault, world)
    | some w ↦ call_loaded (method w) o h p world
  ]
]

-- What happens to objects. `source` is cloned to the handle.
pub data Event : Type 0 where
  create destroy : Handle → Event
  clone_to : (source h : Handle) → Event
  construct_with : Option (List ℕ) → Handle → Event
  unserialize_from : HashTable → Handle → Event
  call : Call → Handle → Event

abbrev pub free_outcome : Result World → World → Outcome
free_outcome (ok world') world = (ok tt, world')
free_outcome (throw e) world = (throw e, world)
free_outcome fault world = (fault, world)
free_outcome stuck world = (stuck, world)

module _ (alloc : Allocator) (casts : FloatCasts) (native : ByteOrder) where
  unfoldable pub exec : Event → Ptr → World → Outcome
  exec (create h) p world = new_object alloc h p world
  exec (destroy h) p world = free_outcome (writer_free h world) world
  exec (clone_to source h) p world = clone_object alloc source h p world
  exec (construct_with prefix h) p world = construct_object alloc prefix h p world
  exec (unserialize_from props h) p world = unserialize_object alloc props h p world
  exec (call c h) p world = call_object (step alloc casts native c) h p world

-- The specification: a document for each handle, with no addresses and nothing shared.
abbrev pub Store : Type 0
Store = Handle → Option Document

abbrev pub constructed : Option (List ℕ) → Document
constructed none = empty
constructed (some prefix) = put prefix empty

abbrev pub store_step :
    Option Document → FloatCasts → Call → Handle → Store → Result (Unit {0}) × Store
store_step none casts c h store = (fault, store)
store_step (some d) casts c h store =
    let (outcome, d') = spec_step casts c d in (outcome, update store h (some d'))

unfoldable pub spec_exec : FloatCasts → Event → Store → Result (Unit {0}) × Store
spec_exec casts (create h) store = (ok tt, update store h (some empty))
spec_exec casts (destroy h) store = (ok tt, update store h none)
spec_exec casts (clone_to source h) store = (ok tt, update store h (store source))
spec_exec casts (construct_with prefix h) store =
    (ok tt, update store h (some (constructed prefix)))
spec_exec casts (unserialize_from props h) store = elim (fetch_properties props) [
  | ok (bytes, offset) ↦
      (ok tt, update store h (some (record { content = bytes; position = wrap 64 offset })))
  | throw e ↦ (throw e, store)
  | fault ↦ (fault, store)
  | stuck ↦ (stuck, store)
]
spec_exec casts (call c h) store = store_step (store h) casts c h store

abbrev pub world_view : World → Store
world_view world h = elim (load_object h world) [ none ↦ none | some w ↦ some (view w) ]
