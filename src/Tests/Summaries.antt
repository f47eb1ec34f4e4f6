-- ===== src/Tests/Summaries.antt =====
-- src/summarizer.cpp, include/util/utf8.h and include/backoff.h at small inputs.
use ragger_cpp.Prelude.{
  Bool, Bytes, List, [], arith, codes, concat, length, not, pos, refl, some, true, ◌&&◌, ◌<◌, ◌==◌,
  ◌∷◌, ◌≡◌, ◌≤◌, ◌⊎◌,
}
use ragger_cpp.Summarizer.Markers.Stacked.{Balanced, nil, plain}
use ragger_cpp.Summarizer.Transcript.Contract.{summarize_transcript_capped}
use ragger_cpp.Summarizer.Transcript.{
  Env, Turn, budget_for, source_size, is_trivial, summarize_transcript,
}
use ragger_cpp.Util.Utf8.Boundary.{IsText, fitting, utf8_safe_prefix-fitting}
use ragger_cpp.Util.Utf8.{utf8_safe_prefix}

-- `é` and `x` in UTF-8.
abbrev characters : List Bytes
characters = (0xC3 ∷ 0xA9 ∷ []) ∷ (b'x' ∷ []) ∷ []

characters-IsText : IsText characters
unfolding ragger_cpp.Util.Utf8.is_continuation ragger_cpp.Util.Utf8.sequence_need
characters-IsText = (
  record {
    lead = 0xC3;
    rest = 0xA9 ∷ [];
    splits = refl;
    starts = refl;
    announces = refl;
    continues = (refl, tt);
  },
  (
    record {
      lead = b'x';
      rest = [];
      splits = refl;
      starts = refl;
      announces = refl;
      continues = tt;
    },
    tt,
  ),
)

utf8_safe_prefix-fitting_example :
    utf8_safe_prefix (concat characters) 1 ≡ concat (fitting 1 characters)
utf8_safe_prefix-fitting_example = utf8_safe_prefix-fitting characters 1 characters-IsText

abbrev note : Bytes
note = codes "System note: cut off"

abbrev rest_of_turn : Bytes
rest_of_turn = codes " hello"

-- No brackets.
abbrev is_plain : Bytes → Bool
is_plain [] = true
is_plain (c ∷ s) = not (c == b'[') && not (c == b']') && is_plain s

plain-Balanced : (s : Bytes) → is_plain s ≡ true → Balanced s
plain-Balanced [] h = nil
plain-Balanced (c ∷ s) h = plain c (ground arith) (ground arith) (plain-Balanced s (ground arith))

abbrev talkative : Env
talkative = record {
  chat_memory = λ messages. some (codes "<think>so</think> an answer");
  vformat = λ prompt target most. some prompt;
  target_pct = pos 30;
  max_pct = pos 60;
  summarizer_prompt = [];
  default_prompt = codes "p";
}

abbrev conversation : List Turn
conversation = (codes "what is it?", codes "a store") ∷ (codes "why?", codes "to remember") ∷ []

summarize_transcript_capped_example :
    ((is_trivial conversation ≡ true)
      × (length (summarize_transcript talkative conversation) < 123)
      × ((other : Env)
          → summarize_transcript other conversation ≡ summarize_transcript talkative conversation))
    ⊎ (length (summarize_transcript talkative conversation)
        ≤ (budget_for talkative (source_size conversation)).hard_cap)
summarize_transcript_capped_example = summarize_transcript_capped talkative conversation
