-- ===== src/Router/Tree/Tests.antt =====
-- Trees built by `add` and read by `lookup`, as tree_test.go does.
use aah.Prelude.{
  ℕ, ◌+◌, ◌≡◌, ◌≢◌, refl, ◌⊎◌, ◌↔◌, inl, inr, Option, In, Bool, true, false, List, [], ◌∷◌, ◌++◌,
  none, some, arith,
}
use aah.Prelude.Outcome.{Outcome, returns, panics, ◌>>=◌}
use aah.Text.{Text, codes, to_lower}
use aah.Router.Escape.{path_unescape}
use aah.Router.Tree.{
  common, static_node, param_node, wildcard_node, NodeType, Info, Node, node, Edges, nil, cons,
  info, edges, wnode,
}
use aah.Router.Tree.Insert.{Tree, new_root, add, AddError}
use aah.Router.Tree.Insert.Binds.{Binds}
use aah.Router.Tree.Insert.Adds.{key}
use aah.Router.Tree.Insert.Built.{IsMap, add_refines, Built, accepted, Built-Binds}
use aah.Router.Tree.Lookup.Pattern.{Pattern, Matches, Stores}
use aah.Router.Tree.Lookup.Reached.{hit}
use aah.Router.Tree.Lookup.Sound.{lookup_sound}
use aah.Router.Tree.Lookup.Fuel.{height, lookup_total}
use aah.Router.Tree.Lookup.Complete.{IsPlain, lookup_complete}
use aah.Router.Tree.Lookup.{shorter, Result, ok, lookup, params_so_far, Params, out_of_fuel}

abbrev start : Bool → Tree ℕ
start slash = record { traling_slash = slash; max_params = 0; root = new_root ℕ }

abbrev add_all : Tree ℕ → List Text → ℕ → Outcome (Tree ℕ)
add_all t [] n = returns t
add_all t (p ∷ ps) n =
    add t p (some n) >>= λ (t', e). elim e [ none ↦ add_all t' ps (n + 1) | some _ ↦ panics ]

abbrev find_in : Outcome (Tree ℕ) → Text → Outcome (Result ℕ)
find_in m p = m >>= λ t. returns (lookup t.traling_slash t.max_params 40 t.root p)

abbrev paths : List Text
paths =
    codes "/"
    ∷ codes "/Users/:Id"
    ∷ codes "/users/:Id/edit"
    ∷ codes "/assets/*file"
    ∷ codes "/about/"
    ∷ []

find_user :
    find_in (add_all (start true) paths 1) (codes "/users/A%42/edit")
    ≡ returns
        (ok (record { route = some 3; params = some ((codes "Id", codes "AB") ∷ []); rts = false }))
unfolding add lookup aah.Text.lower_byte aah.Text.text_eq aah.Text.index_byte aah.Router.Tree.common
    aah.Router.Tree.find_by_idx aah.Router.Tree.find_static wnode aah.Router.Tree.Lookup.segment
    aah.Router.Escape.path_unescape
find_user = refl

find_asset :
    find_in (add_all (start true) paths 1) (codes "/assets/css/a.css")
    ≡ returns (
        ok (record {
          route = some 4;
          params = some ((codes "file", codes "css/a.css") ∷ []);
          rts = false;
        }))
unfolding add lookup aah.Text.lower_byte aah.Text.text_eq aah.Text.index_byte aah.Router.Tree.common
    aah.Router.Tree.find_by_idx aah.Router.Tree.find_static wnode aah.Router.Tree.Lookup.segment
    aah.Router.Escape.path_unescape
find_asset = refl

find_slash :
    find_in (add_all (start true) paths 1) (codes "/about")
    ≡ returns (ok (record { route = none; params = none; rts = true }))
unfolding add lookup aah.Text.lower_byte aah.Text.text_eq aah.Text.index_byte aah.Router.Tree.common
    aah.Router.Tree.find_by_idx aah.Router.Tree.find_static wnode aah.Router.Tree.Lookup.segment
    aah.Router.Escape.path_unescape
find_slash = refl

prefix_found :
    find_in (add_all (start false) (codes "/hello" ∷ []) 1) (codes "/hel")
    ≡ returns (ok (record { route = some 1; params = none; rts = false }))
unfolding add lookup aah.Text.lower_byte aah.Text.text_eq aah.Text.index_byte aah.Router.Tree.common
    aah.Router.Tree.find_by_idx aah.Router.Tree.find_static wnode aah.Router.Tree.Lookup.segment
    aah.Router.Escape.path_unescape
prefix_found = refl

root_fallback :
    find_in (add_all (start true) (codes "/assets/*file" ∷ []) 1) (codes "/etc/passwd")
    ≡ returns (
        ok (record {
          route = some 1;
          params = some ((codes "file", codes "/etc/passwd") ∷ []);
          rts = false;
        }))
unfolding add lookup aah.Text.lower_byte aah.Text.text_eq aah.Text.index_byte aah.Router.Tree.common
    aah.Router.Tree.find_by_idx aah.Router.Tree.find_static wnode aah.Router.Tree.Lookup.segment
    aah.Router.Escape.path_unescape
root_fallback = refl

-- the tree of the routes "/" (1) and "/users/:id" (2)
abbrev user_root : Node ℕ
user_root =
    node (record { idx = b'/'; typ = static_node; label = codes "/"; arg = []; value = some 1 })
      (cons
        (node
          (record { idx = b'u'; typ = static_node; label = codes "users/"; arg = []; value = none })
          (cons
            (node
              (record {
                idx = b':';
                typ = param_node;
                label = codes ":";
                arg = codes "id";
                value = some 2;
              })
              nil)
            nil))
        nil)

found_user :
    lookup true 1 6 user_root (codes "/users/7") ≡ hit 2 (some ((codes "id", codes "7") ∷ [])) false
unfolding lookup aah.Text.lower_byte aah.Text.text_eq aah.Text.index_byte aah.Router.Tree.common
    aah.Router.Tree.find_by_idx aah.Router.Tree.find_static wnode aah.Router.Tree.Lookup.segment
    aah.Router.Escape.path_unescape
found_user = refl

lookup_sound_example :
    (m : Node ℕ) × ((m ≡ user_root) ⊎ (wnode (edges user_root) ≡ some m))
    × (q : Pattern) × Stores m q 2
    × Matches q (codes "/users/7") ((codes "id", codes "7") ∷ [])
lookup_sound_example =
    lookup_sound 1 6 user_root (codes "/users/7") 2 (some ((codes "id", codes "7") ∷ [])) false
      found_user

lookup_total_example : lookup true 1 6 user_root (codes "/users/7/x") ≢ out_of_fuel
lookup_total_example =
    lookup_total true 1 6 user_root (codes "/users/7/x") (unfold height in omega arith)

abbrev hello_root : Node ℕ
hello_root =
    node
      (record { idx = b'/'; typ = static_node; label = codes "/hello"; arg = []; value = some 1 })
      nil

hello_label : codes "/hello" ≡ to_lower (codes "/Hel") ++ (b'l' ∷ b'o' ∷ [])
unfolding aah.Text.lower_byte
hello_label = refl

abbrev numbered : Info ℕ → Edges ℕ → Tree ℕ
numbered inf es = record { traling_slash = true; max_params = 1; root = node inf es }

-- the tree after `/a/:id` was given the route 1
abbrev with_one : Tree ℕ
with_one =
    numbered (record { idx = b'/'; typ = static_node; label = codes "/a/"; arg = []; value = none })
      (cons
        (node
          (record {
            idx = b':';
            typ = param_node;
            label = codes ":";
            arg = codes "id";
            value = some 1;
          })
          nil)
        nil)

first_added : add (start true) (codes "/A/:id") (some 1) ≡ returns (with_one, none)
unfolding add aah.Text.lower_byte aah.Text.text_eq aah.Text.index_byte aah.Router.Tree.common
    aah.Router.Tree.find_by_idx
first_added = refl

-- the tree after `/a/new` was given the route 2, beside the parameter
abbrev with_both : Tree ℕ
with_both =
    numbered (record { idx = b'/'; typ = static_node; label = codes "/a/"; arg = []; value = none })
      (cons
        (node
          (record {
            idx = b':';
            typ = param_node;
            label = codes ":";
            arg = codes "id";
            value = some 1;
          })
          nil)
        (cons
          (node
            (record {
              idx = b'n';
              typ = static_node;
              label = codes "new";
              arg = [];
              value = some 2;
            })
            nil)
          nil))

second_added : add with_one (codes "/a/new") (some 2) ≡ returns (with_both, none)
unfolding add aah.Text.lower_byte aah.Text.text_eq aah.Text.index_byte aah.Router.Tree.common
    aah.Router.Tree.find_by_idx
second_added = refl

new-IsPlain : IsPlain (to_lower (codes "/A/New"))
unfolding aah.Text.lower_byte
new-IsPlain = (
  (refl, (refl, (refl, (refl, (refl, (refl, tt)))))),
  (refl, (refl, (refl, (refl, (refl, (refl, tt)))))),
)

abbrev both_added : List (Text × ℕ)
both_added = (b'/' ∷ key (codes "a/new"), 2) ∷ (b'/' ∷ key (codes "A/:id"), 1) ∷ []

new_added : In {A = Text × ℕ} (to_lower (codes "/A/New"), 2) both_added
unfolding key aah.Text.lower_byte
new_added = inl refl

add_refines_example :
    (t' : Tree ℕ) × (e : Option AddError) × (add with_one (codes "/a/:x/b") (some 2)
      ≡ returns (t', e))
    × IsMap t'
    × ((k : Text) (v : ℕ)
        → Binds k v t'.root
          ↔ (Binds k v with_one.root ⊎ ((e ≡ none) × (k ≡ b'/' ∷ key (codes "a/:x/b")) × (2 ≡ v))))
    × (e ≡ none → (v : ℕ) → Binds (b'/' ∷ key (codes "a/:x/b")) v with_one.root → ⊥)
add_refines_example =
    add_refines with_one (codes "a/:x/b") 2
      (((codes "", refl), tt, tt, tt), inr ((codes "a/", refl), refl))

Built-Binds_example :
    IsMap with_one
    × ((k : Text) (v : ℕ)
        → Binds k v with_one.root ↔ In {A = Text × ℕ} (k, v) ((b'/' ∷ key (codes "A/:id"), 1) ∷ []))
    × ((k : Text) (v w : ℕ) → Binds k v with_one.root → Binds k w with_one.root → v ≡ w)
Built-Binds_example =
    Built-Binds with_one ((b'/' ∷ key (codes "A/:id"), 1) ∷ [])
      (accepted (codes "A/:id") 1 (Built.start true) first_added)

lookup_complete_example : lookup true 1 3 with_both.root (codes "/A/New") ≡ hit 2 none false
lookup_complete_example =
    lookup_complete with_both both_added true 1 3 (codes "/A/New") 2
      (accepted (codes "a/new") 2 (accepted (codes "A/:id") 1 (Built.start true) first_added)
        second_added)
      new-IsPlain new_added (unfold height in omega arith)
