-- ===== src/Memory/Context.antt =====
-- `build_context` of src/memory.cpp. What the backend gives for the session and the search are
-- arguments, newest or best first as it gives them.
pub mod Once
pub mod Capped
use ragger_cpp.Agent.Handle.{is_one_of}
use ragger_cpp.Memory.Recipe.{
  resolve_recipe, effective_default, LayerKind, raw_turn, turn_summary, episode, project_summary,
  decisions, general_search, RecipeLayer, Recipe,
}
use ragger_cpp.Prelude.{
  Bool, Bytes, List, Option, [], codes, equal, false, if◌then◌else◌, ltb, negsuc, none, not, null,
  pos, reverse, some, suc, true, zero, ℕ, ℤ, ◌&&◌, ◌++◌, ◌+◌, ◌==◌, ◌||◌, ◌∷◌,
}

pub record Turn : Type 0 where
  pub user_text : Bytes
  pub assistant_text : Bytes
  pub timestamp : Bytes

-- A summary, an episode or a result of the search.
pub record Dated : Type 0 where
  pub text : Bytes
  pub timestamp : Bytes

pub data ChunkKind : Type 0 where
  of_raw_turn of_turn_summary of_episode of_decision of_search : ChunkKind

pub record ContextChunk : Type 0 where
  pub kind : ChunkKind
  pub text : Bytes
  pub timestamp : Bytes

pub record Sources : Type 0 where
  pub turns_desc : List Turn
  pub turn_summaries : List Dated
  pub episodes : ℕ → List Dated
  pub current_decisions : ℕ → List Bytes
  pub search : Bytes → ℕ → List Dated

-- The walk: what is left of both lists, the chunks so far, and the timestamps of consumed turns.
pub record Walk : Type 0 where
  pub turns : List Turn
  pub summaries : List Dated
  pub rev : List ContextChunk
  pub consumed : List Bytes

-- std::string's order on timestamps: the first is at most the second.
unfoldable pub text_le : Bytes → Bytes → Bool
text_le [] t = true
text_le (x ∷ s) [] = false
text_le (x ∷ s) (y ∷ t) = ltb x y || (x == y && text_le s t)

unfoldable pub format_raw_turn : Turn → Bytes
format_raw_turn t = codes "User: " ++ t.user_text ++ codes "\n\nAssistant: " ++ t.assistant_text

-- `limit == 0 || taken < limit`
unfoldable pub allows : ℤ → ℕ → Bool
allows (pos zero) taken = true
allows (pos (suc n)) taken = ltb taken (suc n)
allows (negsuc n) taken = false

-- `limit > 0 ? limit : otherwise`
abbrev pub wanted : ℤ → ℕ → ℕ
wanted (pos zero) otherwise = otherwise
wanted (pos (suc n)) otherwise = suc n
wanted (negsuc n) otherwise = otherwise

abbrev pub push : Walk → ChunkKind → Bytes → Bytes → Walk
push w kind text timestamp = record w {
  rev = w.rev ++ record { kind = kind; text = text; timestamp = timestamp } ∷ [];
}

abbrev pub push_raw : Walk → Turn → List Turn → Walk
push_raw w t ts = record (push w of_raw_turn (format_raw_turn t) t.timestamp) {
  turns = ts;
  consumed = w.consumed ++ t.timestamp ∷ [];
}

-- The loop of a raw_turn layer, over the turns that are left.
unfoldable pub raw_turns : ℤ → ℕ → List Turn → Walk → Walk
raw_turns limit taken [] w = w
raw_turns limit taken (t ∷ ts) w =
    let rest = raw_turns limit (taken + 1) ts (push_raw w t ts) in
    if allows limit taken then rest else w

-- The turns from the timestamp on are passed by.
unfoldable pub pass_turns : Bytes → List Turn → Walk → Walk
pass_turns timestamp [] w = w
pass_turns timestamp (t ∷ ts) w =
    let rest =
      pass_turns timestamp ts
        (record w { turns = ts; consumed = w.consumed ++ t.timestamp ∷ [] }) in
    if text_le timestamp t.timestamp then rest else w

abbrev pub push_summary : Walk → Dated → Walk
push_summary w s = pass_turns s.timestamp w.turns (push w of_turn_summary s.text s.timestamp)

-- The loop of a turn_summary layer.
unfoldable pub turn_summaries_from : ℤ → ℕ → List Dated → Walk → Walk
turn_summaries_from limit taken [] w = w
turn_summaries_from limit taken (s ∷ ss) w =
    let w' = record w { summaries = ss } in
    let skipped = turn_summaries_from limit taken ss w' in
    let emitted = turn_summaries_from limit (taken + 1) ss (push_summary w' s) in
    if not (allows limit taken)
    then w
    else if is_one_of s.timestamp w.consumed
    then skipped
    else emitted

unfoldable pub push_all : ChunkKind → List Dated → Walk → Walk
push_all kind [] w = w
push_all kind (d ∷ ds) w = push_all kind ds (push w kind d.text d.timestamp)

abbrev pub undated : List Bytes → List Dated
undated [] = []
undated (text ∷ texts) = record { text = text; timestamp = [] } ∷ undated texts

-- The query: the latest user turn, and the first two summaries.
abbrev pub join : Bytes → Bytes → Bytes
join query text =
    if null text then query else if null query then text else query ++ codes "\n" ++ text

abbrev pub latest_text : List Turn → Bytes
latest_text [] = []
latest_text (t ∷ ts) = t.user_text

abbrev pub first_texts : ℕ → List Dated → Bytes → Bytes
first_texts zero ds query = query
first_texts (suc n) [] query = query
first_texts (suc n) (d ∷ ds) query = first_texts n ds (join query d.text)

unfoldable pub query_of : Sources → Bytes
query_of src = first_texts 2 src.turn_summaries (latest_text src.turns_desc)

unfoldable pub has_text_of : Bytes → List ContextChunk → Bool
has_text_of text [] = false
has_text_of text (c ∷ cs) = equal c.text text || has_text_of text cs

-- The results that are not in `rev` yet, best first, at most `n`.
unfoldable pub survivors : ℕ → List ContextChunk → List Dated → List Dated
survivors n rev [] = []
survivors zero rev (r ∷ rs) = []
survivors (suc n) rev (r ∷ rs) =
    let skipped = survivors (suc n) rev rs in
    let taken = r ∷ survivors n rev rs in if has_text_of r.text rev then skipped else taken

-- `K`
abbrev pub over_fetch : ℕ
over_fetch = 8

unfoldable pub general : ℕ → Sources → Walk → Walk
general n src w =
    let query = query_of src in
    if null query
    then w
    else push_all of_search (reverse (survivors n w.rev (src.search query (n + over_fetch)))) w

unfoldable pub run_layer : Sources → RecipeLayer → Walk → Walk
run_layer src l w = elim l.kind [
  | raw_turn ↦ raw_turns l.limit 0 w.turns w
  | turn_summary ↦ turn_summaries_from l.limit 0 w.summaries w
  | episode ↦ push_all of_episode (src.episodes (wanted l.limit 1)) w
  | project_summary ↦ w
  | decisions ↦ push_all of_decision (undated (src.current_decisions (wanted l.limit 3))) w
  | general_search ↦ general (wanted l.limit 5) src w
]

unfoldable pub run_layers : Sources → List RecipeLayer → Walk → Walk
run_layers src [] w = w
run_layers src (l ∷ ls) w = run_layers src ls (run_layer src l w)

abbrev pub start : Sources → Walk
start src = record {
  turns = src.turns_desc;
  summaries = src.turn_summaries;
  rev = [];
  consumed = [];
}

-- The chunks that are kept under the cap, `total` tokens being used.
unfoldable pub keep_capped : (Bytes → ℕ) → ℕ → ℕ → List ContextChunk → List ContextChunk
keep_capped cost cap total [] = []
keep_capped cost cap total (c ∷ cs) =
    let rest = c ∷ keep_capped cost cap (total + cost c.text) cs in
    if ltb cap (total + cost c.text) then [] else rest

unfoldable pub apply_cap : Recipe → List ContextChunk → List ContextChunk
apply_cap r rev = elim r.max_tokens [
  | pos n ↦ if n == 0 then rev else keep_capped r.cost n 0 rev
  | negsuc n ↦ rev
]

-- From the recipe on, for a session with an id.
unfoldable pub assemble : Recipe → Sources → List ContextChunk
assemble r src = reverse (apply_cap r (run_layers src r.layers (start src)).rev)

-- Whether the read side is on, the name of the recipe, and the chunks.
pub record SessionContext : Type 0 where
  pub enabled : Bool
  pub recipe_name : Bytes
  pub chunks : List ContextChunk

abbrev context_of : Bool → Bytes → List ContextChunk → SessionContext
context_of enabled name chunks = record { enabled = enabled; recipe_name = name; chunks = chunks }

-- `capture_turns` and `build_context` of the configuration; `stored` is the setting `recipe`.
unfoldable pub build_context :
    Bool → Bool → List Recipe → Bytes → Option Bytes → Bytes → Bytes → Sources → SessionContext
build_context capturing building recipes configured stored recipe_name session src =
    if not capturing || not building
    then context_of false [] []
    else (elim (resolve_recipe recipes recipe_name (effective_default configured stored)) [
      | none ↦ context_of true [] []
      | some r ↦
          if null session
          then context_of true r.name []
          else context_of true r.name (assemble r src)
    ])
