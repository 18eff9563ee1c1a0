-- ===== src/Spec.antt =====
-- What a writer is for its users: a text of bytes and a position in it, with no reserved memory.
use ext_encoding.Prelude.{ℕ, ◌+◌, List, [], ◌++◌, length, take, drop}

pub record Document : Type 0 where
  pub content : List ℕ
  pub position : ℕ

-- Bytes written at the position replace what stands there, and lengthen the text if they reach
-- beyond its end.
unfoldable pub put : List ℕ → Document → Document
put bytes d = record {
  content = take d.position d.content ++ (bytes ++ drop (d.position + length bytes) d.content);
  position = d.position + length bytes;
}

unfoldable pub seek : ℕ → Document → Document
seek i d = record d { position = i }

abbrev pub empty : Document
empty = record { content = []; position = 0 }
