-- ===== src/Import/Filing.antt =====
-- Where src/import.cpp files a piece of a memory file: as a standing fact or as an episode.
use ragger_cpp.Agent.Handle.{is_one_of}
use ragger_cpp.Prelude.{
  Bool, Bytes, List, [], ap, arith, codes, false, find, if◌then◌else◌, is_upper, lower, ltb, none,
  not, refl, some, suc, to_lower, true, ℕ, ◌==◌, ◌||◌, ◌∷◌, ◌≡◌,
}

pub occurs : Bytes → Bytes → Bool
occurs p s = elim (find p s) [ none ↦ false | some _ ↦ true ]

pub occurs_any : List Bytes → Bytes → Bool
unfolding occurs
occurs_any [] s = false
occurs_any (k ∷ ks) s = occurs k s || occurs_any ks s

-- How many of the words occur.
pub hits : List Bytes → Bytes → ℕ
unfolding occurs
hits [] s = 0
hits (k ∷ ks) s = let rest = hits ks s in if occurs k s then suc rest else rest

abbrev pub session_headings : List Bytes
session_headings =
    codes "history" ∷ codes "recent" ∷ codes "earlier" ∷ codes "background" ∷ codes "timeline" ∷ []

abbrev pub decision_headings : List Bytes
decision_headings = codes "context" ∷ codes "top of mind" ∷ codes "preference" ∷ []

abbrev pub session_verbs : List Bytes
session_verbs =
    codes "worked on"
    ∷ codes "explored"
    ∷ codes "set up"
    ∷ codes "asked about"
    ∷ codes "troubleshot"
    ∷ codes "troubleshooting"
    ∷ codes "iterating"
    ∷ codes "iterated"
    ∷ codes "debugging"
    ∷ codes "investigated"
    ∷ codes "started with"
    ∷ codes "began"
    ∷ codes "set out"
    ∷ []

abbrev pub decision_verbs : List Bytes
decision_verbs =
    codes "prefers"
    ∷ codes "preferring"
    ∷ codes "favors"
    ∷ codes "favoring"
    ∷ codes "is a "
    ∷ codes "is an "
    ∷ codes "uses "
    ∷ codes "runs a "
    ∷ codes "works as"
    ∷ codes "has a strong interest"
    ∷ []

unfoldable pub memory_chunk_is_decision_like : Bytes → Bytes → Bool → Bool
unfolding occurs_any hits
memory_chunk_is_decision_like heading_path text default_decision_like =
    let session = hits session_verbs (lower text) in
    let decision = hits decision_verbs (lower text) in
    if occurs_any session_headings (lower heading_path)
    then false
    else if occurs_any decision_headings (lower heading_path)
    then true
    else if not (session == decision)
    then ltb session decision
    else default_decision_like

abbrev pub scaffolding : List Bytes
scaffolding =
    codes "soul.md"
    ∷ codes "user.md"
    ∷ codes "agents.md"
    ∷ codes "tools.md"
    ∷ codes "identity.md"
    ∷ codes "heartbeat.md"
    ∷ codes "bootstrap.md"
    ∷ []

unfoldable pub is_agent_scaffolding_filename : Bytes → Bool
unfolding is_one_of
is_agent_scaffolding_filename filename = is_one_of (lower filename) scaffolding

to_lower-to_lower : (c : ℕ) → to_lower (to_lower c) ≡ to_lower c
unfolding to_lower is_upper
to_lower-to_lower c = ground arith

pub lower-lower : (s : Bytes) → lower (lower s) ≡ lower s
lower-lower [] = refl
lower-lower (c ∷ s) = rw (to_lower-to_lower c) (ap (◌∷◌ (to_lower c)) (lower-lower s))

-- The case of neither the heading nor the text decides where a piece is filed, and a session heading
-- outranks whatever the text says.
pub memory_chunk_is_decision_like-lower :
    (heading_path text : Bytes) (by_default : Bool)
    → (memory_chunk_is_decision_like (lower heading_path) (lower text) by_default
        ≡ memory_chunk_is_decision_like heading_path text by_default)
      × (occurs_any session_headings (lower heading_path) ≡ true
          → memory_chunk_is_decision_like heading_path text by_default ≡ false)
unfolding memory_chunk_is_decision_like
memory_chunk_is_decision_like-lower heading_path text by_default =
    (rw (lower-lower heading_path, lower-lower text) refl, λ h. rw h refl)
