-- ===== src/Fts/Sentences.antt =====
-- `split_sentences` of src/fts_tokenize.cpp.
pub mod Laws
pub mod Form
use ragger_cpp.Prelude.{
  Bool, Bytes, List, [], drop_end_while, drop_while, if◌then◌else◌, is_blank, null, ℕ, ◌++◌, ◌==◌,
  ◌||◌, ◌∷◌,
}

unfoldable pub is_terminator : ℕ → Bool
is_terminator c = c == b'.' || c == b'!' || c == b'?' || c == b':' || c == b';'

-- Both ends without `" \t\r\n"`.
unfoldable pub trimmed : Bytes → Bytes
trimmed s = drop_end_while is_blank (drop_while is_blank s)

-- `result.push_back(trimmed)`, if it is not empty.
unfoldable pub push_sentence : Bytes → List Bytes → List Bytes
push_sentence current rest = let t = trimmed current in if null t then rest else t ∷ rest

-- The loop; `current` is the sentence read so far.
unfoldable pub split_from : Bytes → Bytes → List Bytes
split_from current [] = push_sentence current []
split_from current (c ∷ text) =
    let read = current ++ c ∷ [] in
    let closed = push_sentence read (split_from [] text) in
    let more = split_from read text in if is_terminator c then closed else more

unfoldable pub split_sentences : Bytes → List Bytes
split_sentences = split_from []
