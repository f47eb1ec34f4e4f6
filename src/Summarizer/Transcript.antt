-- ===== src/Summarizer/Transcript.antt =====
-- `summarize_transcript` and `summarize_texts` of src/summarizer.cpp. The model behind
-- `InferenceClient` and `std::vformat` are arguments; `none` is an exception. Log lines are left out.
pub mod Contract
use ragger_cpp.Prelude.{
  Bool, Bytes, List, Option, [], codes, false, if◌then◌else◌, leb, length, ltb, none, null, some, ℕ,
  ℤ, ◌++◌, ◌+◌, ◌==◌, ◌∷◌,
}
use ragger_cpp.Summarizer.Budget.{SummaryBudget, make_budget}
use ragger_cpp.Summarizer.Thinking.{strip_thinking}
use ragger_cpp.Util.Utf8.{utf8_safe_prefix}

pub data Role : Type 0 where
  system user : Role

pub record Message : Type 0 where
  pub role : Role
  pub content : Bytes

-- A turn: its user side and its assistant side.
abbrev pub Turn : Type 0
Turn = Bytes × Bytes

pub record Env : Type 0 where
  pub chat_memory : List Message → Option Bytes
  pub vformat : Bytes → ℕ → ℕ → Option Bytes
  pub target_pct : ℤ
  pub max_pct : ℤ
  pub summarizer_prompt : Bytes
  pub default_prompt : Bytes

abbrev pub value_or_empty : Option Bytes → Bytes
value_or_empty none = []
value_or_empty (some s) = s

-- A prompt that cannot be formatted counts as none.
pub build_system_prompt : Env → SummaryBudget → Bytes
build_system_prompt env b =
    let prompt = if null env.summarizer_prompt then env.default_prompt else env.summarizer_prompt in
    value_or_empty (env.vformat prompt b.target_chars b.hard_cap)

pub messages_for : Env → SummaryBudget → Bytes → List Message
messages_for env b conversation =
    let system_text = build_system_prompt env b in
    let question = record { role = user; content = conversation } ∷ [] in
    if null system_text
    then question
    else record { role = system; content = system_text } ∷ question

-- `strip_thinking(inference.chat_memory(messages))`; `none` after an exception.
unfoldable pub ask : Env → List Message → Option Bytes
ask env messages = elim (env.chat_memory messages) [
  | none ↦ none
  | some answer ↦ some (strip_thinking answer)
]

pub conversation_of : List Turn → Bytes
conversation_of [] = []
conversation_of ((u, a) ∷ turns) =
    let spoken = if null u then [] else codes "**User:** " ++ (u ++ codes "\n\n") in
    spoken ++ (codes "**Assistant:** " ++ (a ++ (codes "\n\n" ++ conversation_of turns)))

unfoldable pub source_size : List Turn → ℕ
source_size [] = 0
source_size ((u, a) ∷ turns) = length u + length a + source_size turns

-- A single short pair, verbatim.
unfoldable pub verbatim : Turn → Bytes
verbatim (u, a) = if null a then u else if null u then a else u ++ (codes " | " ++ a)

abbrev pub arrow : Bytes
arrow = b' ' ∷ 0xE2 ∷ 0x86 ∷ 0x92 ∷ b' ' ∷ []

-- The source turns, joined; the fallback for an answer that is too long.
pub joined : Bytes → List Turn → Bytes
joined done [] = done
joined done ((u, a) ∷ turns) =
    let separated = if null done then done else done ++ codes " | " in
    joined ((separated ++ u) ++ (if null a then [] else arrow ++ a)) turns

pub enforce_cap : ℕ → Bytes → Bytes → Bytes
enforce_cap hard_cap fallback result =
    if ltb hard_cap (length result)
    then if leb (length fallback) hard_cap then fallback else utf8_safe_prefix result hard_cap
    else result

unfoldable pub is_trivial : List Turn → Bool
is_trivial [] = false
is_trivial (t ∷ []) = ltb (source_size (t ∷ [])) 120
is_trivial (t ∷ u ∷ turns) = false

abbrev pub budget_for : Env → ℕ → SummaryBudget
budget_for env n = make_budget env.target_pct env.max_pct n

-- What follows the trivial-turn shortcut.
pub summarize_long : Env → List Turn → Bytes
unfolding enforce_cap
summarize_long env turns =
    let budget = budget_for env (source_size turns) in
    elim (ask env (messages_for env budget (conversation_of turns))) [
      | none ↦ []
      | some result ↦ enforce_cap budget.hard_cap (joined [] turns) result
    ]

unfoldable pub summarize_transcript : Env → List Turn → Bytes
unfolding summarize_long
summarize_transcript env [] = []
summarize_transcript env (t ∷ turns) =
    if is_trivial (t ∷ turns) then verbatim t else summarize_long env (t ∷ turns)

pub combined_of : Bytes → List Bytes → Bytes
combined_of done [] = done
combined_of done (t ∷ texts) =
    combined_of ((if null done then done else done ++ codes "\n\n") ++ t) texts

unfoldable pub total_size : List Bytes → ℕ
total_size [] = 0
total_size (t ∷ texts) = length t + total_size texts

pub cap_text : ℕ → Bytes → Bytes
cap_text hard_cap result =
    if ltb hard_cap (length result) then utf8_safe_prefix result hard_cap else result

-- What follows the two early returns.
pub summarize_blobs : Env → List Bytes → Bytes
unfolding cap_text
summarize_blobs env texts =
    let budget = budget_for env (total_size texts) in
    elim (ask env (messages_for env budget (combined_of [] texts))) [
      | none ↦ []
      | some result ↦ cap_text budget.hard_cap result
    ]

unfoldable pub summarize_texts : Env → List Bytes → Bytes
unfolding summarize_blobs
summarize_texts env texts =
    if null texts then [] else if total_size texts == 0 then [] else summarize_blobs env texts
