-- ===== src/Client/Info/Names.antt =====
-- The maps of the game info: what a manifest leaves in them.
use multiplayer.Prelude.{
  List, ℕ, some, none, arith, refl, Bool, Option, [], false, if◌then◌else◌, sym, true, ◌==◌, ◌∙◌,
  ◌∷◌, ◌≡◌, ◌≢◌,
}
use multiplayer.Client.Info.{Names, set_name, set_names, find_name}

abbrev pub later : Option (List ℕ) → Option (List ℕ) → Option (List ℕ)
later (some s) o = some s
later none o = o

-- The entry of a key that stands last in a manifest.
abbrev pub last_name : ℕ → Names → Option (List ℕ)
last_name k [] = none
last_name k ((j, s) ∷ es) = later (last_name k es) (if j == k then some s else none)

find_name-set_name :
    (k j : ℕ) (s : List ℕ) (m : Names)
    → find_name k (set_name j s m) ≡ (if j == k then some s else find_name k m)
unfolding find_name set_name
find_name-set_name k j s [] = refl
find_name-set_name k j s ((i, t) ∷ m) = ground (arith, find_name-set_name k j s m)

later_if :
    (b : Bool) (o : Option (List ℕ)) (s : List ℕ) (p : Option (List ℕ))
    → later (later o (if b then some s else none)) p ≡ later o (if b then some s else p)
later_if true (some x) s p = refl
later_if false (some x) s p = refl
later_if true none s p = refl
later_if false none s p = refl

pub find_name-set_names :
    (k : ℕ) (es m : Names) → find_name k (set_names es m) ≡ later (last_name k es) (find_name k m)
unfolding set_names
find_name-set_names k [] m = refl
find_name-set_names k ((j, s) ∷ es) m =
    find_name-set_names k es (set_name j s m)
    ∙ rw (find_name-set_name k j s m) (sym (later_if (j == k) (last_name k es) s (find_name k m)))

later-none : (o : Option (List ℕ)) → later o none ≡ o
later-none (some s) = refl
later-none none = refl

pub find_names_nil : (k : ℕ) (es : Names) → find_name k (set_names es []) ≡ last_name k es
unfolding find_name
find_names_nil k es = find_name-set_names k es [] ∙ later-none (last_name k es)

pub find_nothing : (k : ℕ) (s : List ℕ) → find_name k [] ≢ some s
unfolding find_name
find_nothing k s h = absurd (cc)
