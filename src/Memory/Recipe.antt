-- ===== src/Memory/Recipe.antt =====
-- src/recipe.cpp and include/recipe.h. Reading the JSON files is left out: a layer is given by its
-- fields, and the recipes loaded from the directory are an argument.
use ragger_cpp.Prelude.{
  Bytes, List, Option, [], codes, equal, if◌then◌else◌, none, null, or_else, pos, some, zero, ℕ, ℤ,
  ◌||◌, ◌∷◌,
}

pub data LayerKind : Type 0 where
  raw_turn turn_summary episode project_summary decisions general_search : LayerKind

pub record RecipeLayer : Type 0 where
  pub kind : LayerKind
  pub limit : ℤ

-- `cost` is `approx_tokens` of src/memory.cpp for the recipe's `chars_per_token`, a float.
pub record Recipe : Type 0 where
  pub name : Bytes
  pub layers : List RecipeLayer
  pub max_tokens : ℤ
  pub cost : Bytes → ℕ

-- A layer of a recipe file; `count` is the older field.
pub record LayerSpec : Type 0 where
  pub kind : Bytes
  pub limit : ℤ
  pub count : Option ℤ

-- `layer_kind_map`
abbrev pub layer_kinds : List (Bytes × LayerKind)
layer_kinds =
    (codes "raw_turn", raw_turn)
    ∷ (codes "turn_summary", turn_summary)
    ∷ (codes "episode", episode)
    ∷ (codes "session_summary", episode)
    ∷ (codes "project_summary", project_summary)
    ∷ (codes "decisions", decisions)
    ∷ (codes "general_search", general_search)
    ∷ []

unfoldable pub find_kind : Bytes → List (Bytes × LayerKind) → Option LayerKind
find_kind kind [] = none
find_kind kind ((k, v) ∷ kinds) = if equal k kind then some v else find_kind kind kinds

unfoldable pub limit_of : ℤ → Option ℤ → ℤ
limit_of (pos zero) (some count) = count
limit_of limit count = limit

unfoldable pub parse_layers : List LayerSpec → List RecipeLayer
parse_layers [] = []
parse_layers (s ∷ specs) = elim (find_kind s.kind layer_kinds) [
  | none ↦ parse_layers specs
  | some kind ↦ record { kind = kind; limit = limit_of s.limit s.count } ∷ parse_layers specs
]

abbrev layer : LayerKind → ℕ → RecipeLayer
layer kind n = record { kind = kind; limit = pos n }

-- `cost` is that of the default of four bytes to a token.
abbrev pub builtin_recipes : (Bytes → ℕ) → List Recipe
builtin_recipes cost =
    record {
      name = codes "natural_fading";
      layers =
          layer raw_turn 2
          ∷ layer turn_summary 5
          ∷ layer episode 1
          ∷ layer decisions 3
          ∷ layer general_search 5
          ∷ [];
      max_tokens = pos 8000;
      cost = cost;
    }
    ∷ record {
      name = codes "raw_only";
      layers = layer raw_turn 0 ∷ [];
      max_tokens = pos 16000;
      cost = cost;
    }
    ∷ []

unfoldable pub find_named : Bytes → List Recipe → Option Recipe
find_named name [] = none
find_named name (r ∷ rs) = if equal r.name name then some r else find_named name rs

unfoldable pub find_recipe : List Recipe → Bytes → Option Recipe
find_recipe recipes name = if null name then none else find_named name recipes

-- `cached_recipes`
unfoldable pub cached_recipes : (Bytes → ℕ) → List Recipe → List Recipe
cached_recipes cost loaded = if null loaded then builtin_recipes cost else loaded

-- The default that a stored setting replaces, unless it is empty or "default".
unfoldable pub effective_default : Bytes → Option Bytes → Bytes
effective_default configured none = configured
effective_default configured (some stored) =
    if null stored || equal stored (codes "default") then configured else stored

abbrev pub front : List Recipe → Option Recipe
front [] = none
front (r ∷ rs) = some r

unfoldable pub resolve_recipe : List Recipe → Bytes → Bytes → Option Recipe
resolve_recipe recipes name default_name =
    or_else (find_recipe recipes name) (or_else (find_recipe recipes default_name) (front recipes))
