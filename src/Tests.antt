-- ===== src/Tests.antt =====
-- The definitions run on concrete inputs: an allocator, a conversion between floats and doubles and a
-- few objects, and the theorems about the code applied to them.
mod Samples
mod Serializers
mod Objects
mod Types
mod Memory
mod Strings
mod Api
