-- ===== src/Lib.antt =====
-- ext_encoding: a verification of ext-encoding, the PHP extension that reads and writes bytes,
-- integers and floats in a given byte order and as variable-length integers.
--
-- The program. Serializers.h has the templates that read a value from a buffer or write one to it.
-- classes/ByteBufferWriter.cpp is a class whose objects own a growing block of memory;
-- classes/ByteBufferReader.cpp one whose objects walk over a string. classes/Types.cpp makes the
-- static functions read, unpack, write and pack of the classes Byte, LE, BE and VarInt from the
-- serializers, and calls these with the fields of a reader or a writer as reference parameters.
--
-- The files, and the code that each models:
--   Prelude, Prelude/*          shared names, lists, bits, integers and machine words
--   Zend                        what the Zend engine supplies: PHP values and tables, exceptions, the
--                               outcome of a call, the allocator
--   Serializers/Endian          ByteOrder, Flipper and the reversal of bytes
--   Serializers/Memory          the reference parameters buffer, length and offset, and extendBuffer
--   Serializers/Contract        what readers and writers of values promise to their callers
--   Serializers/Fixed           readByte, writeByte, readFixedSizeType, writeFixedSizeType
--   Serializers/Triad           readInt24, writeInt24
--   Serializers/VarInt          readUnsignedVarInt, readSignedVarInt and the writers; Masks, Write, Scan
--                               and Sign have the proofs, each with its specification
--   Serializers/Array           the four array templates; Read and Write have the proofs
--   Serialized                  fetch_serialized_property of the two class files
--   Writer                      classes/ByteBufferWriter.cpp; Invariant, Refine, Methods and Persist
--                               have the proofs
--   Reader                      classes/ByteBufferReader.cpp; Laws and Persist have the proofs
--   Types                       classes/Types.cpp: a Codec is an entry of its tables; Encoding, Values,
--                               RoundTrip, Pack, Safety and Progress have the proofs
--   Types/Tables                the macros and the method tables of classes/Types.cpp; Lookup has the proofs
--   Spec                        what users see of a writer: bytes and a position
--   Session                     a sequence of calls on a writer, and the same calls on Spec
--   Packet                      fields written one behind the other and read back
--   Objects                     the objects of classes/ByteBufferWriter.cpp in a heap: create, clone, free,
--                               and the methods that give back or move a block; Sound, Refine, Exec and
--                               Runs have the proofs
--   Strings                     the objects of classes/ByteBufferReader.cpp and the reference counts of
--                               their strings; Counts, Balance, Readers, Reach and Leak have the proofs
--   Api/Arguments               the ZEND_PARSE_PARAMETERS blocks of the functions
--   Api/Live                    the objects of a script
--   Api/Static                  the static functions by class and name, with their parameters
--   Api/Methods                 the method tables of stubs/ByteBufferReader_arginfo.h and
--                               stubs/ByteBufferWriter_arginfo.h, and each method with its parameters
--   Api/ArgInfo                 the argument information of classes/Types.cpp and of the stubs
--   Api/Script                  a script: any calls by name, in any order
--   Tests                       concrete inputs
--
-- How state and operations correspond. ByteBufferWriter and ByteBufferReader are the structs
-- byte_buffer_writer_t and byte_buffer_reader_t. A method is a function from the state to an outcome
-- and the state that it leaves; names are those of the code in lower case (setOffset is set_offset,
-- zif_readType is zif_read_type). An outcome is a value, an exception with the arguments of its
-- message, or a fault: an access outside the memory at hand, which C++ leaves undefined. Memory is a
-- list of bytes, and new memory has any content. An integer is its bit pattern with its width; size_t
-- has 64 bits, and its sums, products and differences wrap around as in the code. PHP ints are signed
-- integers of 64 bits, and floats the bit patterns of doubles. The byte order of the machine is an
-- argument of the serializers, so that the theorems hold on machines of both.
--
-- Three models of the objects. Writer and Reader take the struct with its memory by value, which is
-- enough for what a method computes. Objects takes the block of a writer out into a heap of blocks by
-- address, which the structs of all objects share: emalloc returns any address that is free, efree of
-- an address that is not allocated is a fault, and erealloc moves a block whose length changes. Strings
-- does the same for the strings of readers, each with its reference count: to use or release a string
-- that is gone is a fault. Both run the functions of Writer and Reader on what they find in memory. A
-- script (Api) passes arguments that the engine converts; a parameter that is not there or has another
-- type throws. `zend_parse_parameters_none_throw()` is modelled as the methods use it: they do not look
-- at its result, and go on behind the exception.
--
-- The 16 bytes on the stack of zif_packType are a block like any other in the model, and are told from
-- one that extendBuffer made by their length: that the writer holds another buffer in the end is a fault,
-- since erealloc was given the address of the stack. The comparison handlers are modelled on two
-- objects of their class, which is how the engine calls them for two readers or two writers.
--
-- Parameters. The allocator (Zend) returns blocks of the size asked for, and resizing keeps the bytes
-- as far as both sizes go; running out of memory ends the request. The conversions between double and
-- float (Types) are any functions into patterns of their widths. What the engine converts an argument
-- to (Coercions in Api/Arguments) is any function that takes a value of the type that is asked for, if
-- PHP has it, as it is, and returns ints and floats of 64 bits and strings shorter than 2 ^ 63.
--
-- Bounds and fuel. The loop of readUnsignedVarInt runs on fuel of one more than the bits of its type;
-- its shift grows by seven each round and the loop ends when it reaches these bits, so that the fuel
-- is never used up: the outcome `stuck` that stands for that is none of the outcomes below. The other
-- loops are structural. Sizes are below 2 ^ 64, and lengths of PHP strings below 2 ^ 63.
--
-- Not modelled: the registration of the module and its classes, and the layout of an object around its
-- zend_object (ZendUtil.h), which are calls of the engine with no state of the extension's own.
-- Reference counts of objects are the engine's: a script that drops its last reference is an event
-- that frees the object. Names of methods are compared as they stand, where the engine ignores case.
pub mod Prelude
pub mod Zend
pub mod Spec
pub mod Serializers
pub mod Serialized
pub mod Writer
pub mod Reader
pub mod Types
pub mod Session
pub mod Packet
pub mod Objects
pub mod Strings
pub mod Api
mod Tests
