-- ===== src/Tests/Context.antt =====
-- A context for a short session.
use ragger_cpp.Memory.Context.Capped.{IsLongestFitting, assemble_capped}
use ragger_cpp.Memory.Context.Once.Walking.{build_context-Apart}
use ragger_cpp.Memory.Context.Once.{Apart}
use ragger_cpp.Memory.Context.{
  Turn, Dated, ChunkKind, of_raw_turn, of_turn_summary, of_decision, ContextChunk, Sources, text_le,
  run_layers, start, assemble, build_context,
}
use ragger_cpp.Memory.Recipe.{Recipe, raw_turn, turn_summary, decisions}
use ragger_cpp.Prelude.{Bytes, [], codes, equal, length, pos, refl, some, true, ◌/◌, ◌∷◌, ◌≡◌}

abbrev turn_of : Bytes → Bytes → Turn
turn_of text time = record { user_text = text; assistant_text = codes "yes"; timestamp = time }

abbrev summary_of : Bytes → Bytes → Dated
summary_of text time = record { text = text; timestamp = time }

abbrev short_session : Sources
short_session = record {
  turns_desc =
      turn_of (codes "second") (codes "12:05") ∷ turn_of (codes "first") (codes "12:01") ∷ [];
  turn_summaries =
      summary_of (codes "b") (codes "12:05") ∷ summary_of (codes "a") (codes "12:01") ∷ [];
  episodes = λ n. [];
  current_decisions = λ n. codes "use tea" ∷ [];
  search = λ query n. [];
}

-- One turn as it was, summaries of the others, and decisions, in 12 tokens of 4 bytes.
abbrev fading : Recipe
fading = record {
  name = codes "fading";
  layers =
      record { kind = raw_turn; limit = pos 1 }
      ∷ record { kind = turn_summary; limit = pos 5 }
      ∷ record { kind = decisions; limit = pos 3 }
      ∷ [];
  max_tokens = pos 12;
  cost = λ s. length s / 4;
}

abbrev chunk_of : ChunkKind → Bytes → Bytes → ContextChunk
chunk_of kind text time = record { kind = kind; text = text; timestamp = time }

context :
    assemble fading short_session
    ≡ chunk_of of_decision (codes "use tea") []
      ∷ chunk_of of_turn_summary (codes "a") (codes "12:01")
      ∷ chunk_of of_raw_turn (codes "User: second\n\nAssistant: yes") (codes "12:05")
      ∷ []
unfolding assemble ragger_cpp.Memory.Context.apply_cap ragger_cpp.Memory.Context.keep_capped
    run_layers ragger_cpp.Memory.Context.run_layer ragger_cpp.Memory.Context.push_all
    ragger_cpp.Memory.Context.turn_summaries_from ragger_cpp.Memory.Context.raw_turns
    ragger_cpp.Memory.Context.allows ragger_cpp.Agent.Handle.is_one_of ragger_cpp.Prelude.equal
    ragger_cpp.Memory.Context.pass_turns text_le ragger_cpp.Memory.Context.format_raw_turn
context = refl

newest_first : text_le (codes "12:01") (codes "12:05") ≡ true
unfolding text_le
newest_first = refl

-- The stored setting names the recipe.
build_context-Apart_example :
    Apart
      (build_context true true
        (fading ∷ [])
        []
        (some (codes "fading"))
        []
        (codes "g")
        short_session).chunks
build_context-Apart_example =
    build_context-Apart true true (fading ∷ []) [] (some (codes "fading")) [] (codes "g")
      short_session ((newest_first, tt), (tt, tt))

assemble_capped_example :
    IsLongestFitting fading.cost 12
      (run_layers short_session fading.layers (start short_session)).rev
      (assemble fading short_session)
assemble_capped_example = assemble_capped fading short_session 11 refl
