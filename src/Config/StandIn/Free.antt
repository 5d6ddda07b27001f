-- ===== src/Config/StandIn/Free.antt =====
-- Trees of sections that have a text nowhere.
use aah.Prelude.{◌≡◌, ◌≢◌, List, [], ◌∷◌, Option, none, some, if_cases, some_inj}
use mathlib.Core.Path.{subst}
use aah.Prelude.Outcome.{returns}
use aah.Text.{Text, split, text_eq}
use aah.Config.{
  Setting, section, string, boolean, integer, list, other, Config, is_profile_enabled, prepare_key,
  get_setting, string_value, asserted, as_string, as_section, get_sub_config, new_config,
}
use aah.Config.StandIn.{
  Tree, end, entry, Entry, sub, text, flag, items, setting_of, find, sub_tree, find_path,
  tree_forge,
}

module _ (w : Text) where
  abbrev mutual
    pub Free : Tree → Type 0
    Free end = Unit
    Free (entry n e t) = FreeEntry e × Free t

    pub FreeEntry : Entry → Type 0
    FreeEntry (sub t) = Free t
    FreeEntry (text s) = s ≢ w
    FreeEntry (flag b) = Unit
    FreeEntry (items is) = Unit

  abbrev FreeSetting : Setting Tree → Type 0
  FreeSetting (section t) = Free t
  FreeSetting (string s) = s ≢ w
  FreeSetting (boolean b) = Unit
  FreeSetting (integer n) = Unit
  FreeSetting (list is) = Unit
  FreeSetting other = Unit

  abbrev OnSome : {A : Type 0} → (A → Type 0) → Option A → Type 0
  OnSome P none = Unit
  OnSome P (some a) = P a

  find-Free : (t : Tree) (k : Text) → Free t → OnSome FreeEntry (find t k)
  unfolding find
  find-Free end k h = tt
  find-Free (entry n e t) k (f, h) =
      if_cases (OnSome FreeEntry) (text_eq n k) _ _ f (find-Free t k h)

  setting_of-Free : (e : Entry) → FreeEntry e → FreeSetting (setting_of e)
  setting_of-Free (sub t) h = h
  setting_of-Free (text s) h = h
  setting_of-Free (flag b) h = h
  setting_of-Free (items is) h = h

  at_end :
      (o : Option Entry)
      → OnSome FreeEntry o
      → OnSome FreeSetting
          (elim o as (λ _. Option (Setting Tree)) [ none ↦ none | some e ↦ some (setting_of e) ])
  at_end none h = tt
  at_end (some e) h = setting_of-Free e h

  go_down :
      (o : Option Entry) (k : Tree → Option (Setting Tree))
      → OnSome FreeEntry o
      → ((t : Tree) → Free t → OnSome FreeSetting (k t))
      → OnSome FreeSetting
          (elim (sub_tree o) as (λ _. Option (Setting Tree)) [ none ↦ none | some t ↦ k t ])
  go_down none k h f = tt
  go_down (some (sub t)) k h f = f t h
  go_down (some (text s)) k h f = tt
  go_down (some (flag b)) k h f = tt
  go_down (some (items is)) k h f = tt

  find_path-Free : (path : List Text) (t : Tree) → Free t → OnSome FreeSetting (find_path t path)
  unfolding find_path
  find_path-Free [] t h = tt
  find_path-Free (n ∷ []) t h = at_end (find t n) (find-Free t n h)
  find_path-Free (n ∷ m ∷ path) t h =
      go_down (find t n) (λ u. find_path u (m ∷ path)) (find-Free t n h)
        λ u h'. find_path-Free (m ∷ path) u h'

  either_setting :
      (o p : Option (Setting Tree))
      → OnSome FreeSetting o
      → OnSome FreeSetting p
      → OnSome FreeSetting (elim o as (λ _. Option (Setting Tree)) [ some v ↦ some v | none ↦ p ])
  either_setting none p h k = k
  either_setting (some v) p h k = h

  get_setting-Free :
      (c : Config Tree) (key : Text)
      → Free c.cfg
      → OnSome FreeSetting (get_setting tree_forge c key)
  unfolding get_setting
  get_setting-Free c key h =
      if_cases (OnSome FreeSetting) (is_profile_enabled c) _ _
        (either_setting _ _ (find_path-Free (split b'.' (prepare_key c key)) c.cfg h)
          (find_path-Free (split b'.' key) c.cfg h))
        (find_path-Free (split b'.' key) c.cfg h)

  another_text :
      (o : Option (Setting Tree)) → OnSome FreeSetting o → asserted as_string o ≢ returns (some w)
  another_text none h e = cc e
  another_text (some (section t)) h e = cc e
  another_text (some (string s)) h e = h (cc e)
  another_text (some (boolean b)) h e = cc e
  another_text (some (integer n)) h e = cc e
  another_text (some (list is)) h e = cc e
  another_text (some other) h e = cc e

  pub string_value-Free :
      (c : Config Tree) (key : Text) → Free c.cfg → string_value tree_forge c key ≢ returns (some w)
  unfolding string_value
  string_value-Free c key h = another_text (get_setting tree_forge c key) (get_setting-Free c key h)

  section_of :
      (o : Option (Setting Tree)) (c : Config Tree)
      → OnSome FreeSetting o
      → (elim (as_section o) as (λ _. Option (Config Tree)) [
        | none ↦ none
        | some s ↦ some (new_config s)
      ])
        ≡ some c
      → Free c.cfg
  section_of none c h e = absurd (cc e)
  section_of (some (section t)) c h e = subst (λ (x : Config Tree). Free x.cfg) (some_inj e) h
  section_of (some (string s)) c h e = absurd (cc e)
  section_of (some (boolean b)) c h e = absurd (cc e)
  section_of (some (integer n)) c h e = absurd (cc e)
  section_of (some (list is)) c h e = absurd (cc e)
  section_of (some other) c h e = absurd (cc e)

  pub get_sub_config-Free :
      (c below : Config Tree) (key : Text)
      → Free c.cfg
      → get_sub_config tree_forge c key ≡ some below
      → Free below.cfg
  unfolding get_sub_config
  get_sub_config-Free c below key h e =
      section_of _ below (find_path-Free (split b'.' (prepare_key c key)) c.cfg h) e
