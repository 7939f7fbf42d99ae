-- ===== src/Plugins/CommandRegistry/Lookup.antt =====
-- packages/wazeko/src/plugins/command-loader.ts: which command a name or an alias finds.
use wazeko.Prelude.{
  ◌≡◌, ◌≢◌, ◌⊎◌, inl, inr, refl, sym, ap, subst, ◌∙◌, Bool-cases, none, some, List, [], ◌∷◌, arith,
  if_true, if_false,
}
use wazeko.Text.{Text, text_eq, text_eq_iff}
use wazeko.Map.{Map, text_key, get-set, get-delete}
use wazeko.Map as Maps
use wazeko.Plugins.CommandRegistry.{
  Command, CommandRegistry, listed, set_aliases, delete_aliases, register, unregister,
  unregister_found, resolved, found_or, get_command,
}

get-set_same {ℓ} :
    {V : Type ℓ} (k : Text) (v : V) (m : Map Text V) → Maps.get k (Maps.set k v m) ≡ some v
get-set_same k v m = get-set k k v m ∙ if_true _ _ _ ((text_eq_iff k k).1 refl)

get-set_other {ℓ} :
    {V : Type ℓ} (k j : Text) (v : V) (m : Map Text V)
    → k ≢ j
    → Maps.get j (Maps.set k v m) ≡ Maps.get j m
get-set_other k j v m h = elim (Bool-cases (text_eq k j)) [
  | inl e ↦ absurd (h ((text_eq_iff k j).0 e))
  | inr e ↦ get-set k j v m ∙ if_false _ _ _ e
]

module _ (to_lower_case : Text → Text) (resolve : Text → Text) where
  -- A list of aliases has one that is written like a text, but for its case.
  abbrev pub Listed : Text → List Text → Type 0
  Listed k [] = ⊥
  Listed k (a ∷ as') = (to_lower_case a ≡ k) ⊎ Listed k as'

  set_aliases-keeps :
      (as' : List Text) (k name : Text) (m : Map Text Text)
      → Maps.get k m ≡ some name
      → Maps.get k (set_aliases to_lower_case resolve as' name m) ≡ some name
  unfolding set_aliases
  set_aliases-keeps [] k name m h = h
  set_aliases-keeps (a ∷ as') k name m h =
      set_aliases-keeps as' k name (Maps.set (to_lower_case a) name m)
        (get-set (to_lower_case a) k name m ∙ ground (arith))

  set_aliases-Listed :
      (as' : List Text) (k name : Text) (m : Map Text Text)
      → Listed k as'
      → Maps.get k (set_aliases to_lower_case resolve as' name m) ≡ some name
  unfolding set_aliases
  set_aliases-Listed [] k name m h = absurd h
  set_aliases-Listed (a ∷ as') k name m (inl e) = set_aliases-keeps as' k name _ (
      subst (λ j. Maps.get j (Maps.set (to_lower_case a) name m) ≡ some name) e
        (get-set_same (to_lower_case a) name m))
  set_aliases-Listed (a ∷ as') k name m (inr h) = set_aliases-Listed as' k name _ h

  delete_aliases-keeps :
      (as' : List Text) (k : Text) (m : Map Text Text)
      → Maps.get k m ≡ none
      → Maps.get k (delete_aliases to_lower_case resolve as' m) ≡ none
  unfolding delete_aliases
  delete_aliases-keeps [] k m h = h
  delete_aliases-keeps (a ∷ as') k m h =
      delete_aliases-keeps as' k (Maps.delete (to_lower_case a) m)
        (get-delete (to_lower_case a) k m ∙ ground (arith))

  delete_aliases-Listed :
      (as' : List Text) (k : Text) (m : Map Text Text)
      → Listed k as'
      → Maps.get k (delete_aliases to_lower_case resolve as' m) ≡ none
  unfolding delete_aliases
  delete_aliases-Listed [] k m h = absurd h
  delete_aliases-Listed (a ∷ as') k m (inl e) =
      delete_aliases-keeps as' k _
        (get-delete (to_lower_case a) k m ∙ if_true _ _ _ ((text_eq_iff (to_lower_case a) k).1 e))
  delete_aliases-Listed (a ∷ as') k m (inr h) = delete_aliases-Listed as' k _ h

  module _ {W : Type 0} where
    abbrev pub name_of : Command W → Text
    name_of c = to_lower_case c.definition.name

    abbrev pub aliases_of : Command W → List Text
    aliases_of c = listed c.definition.aliases

    abbrev pub NoneNamed : Text → CommandRegistry W → Type 0
    NoneNamed k r = Maps.get k r.commands ≡ none

    resolved_some :
        (name : Text) (r : CommandRegistry W)
        → name ≢ []
        → resolved to_lower_case resolve (some name) r ≡ Maps.get name r.commands
    resolved_some [] r h = absurd (h refl)
    resolved_some (c ∷ cs) r h = refl

    get_command-named :
        (q : Text) (r : CommandRegistry W) (c : Command W)
        → Maps.get (to_lower_case q) r.commands ≡ some c
        → get_command to_lower_case resolve q r ≡ some c
    unfolding get_command
    get_command-named q r c e =
        ap
          (λ o.
            found_or to_lower_case resolve o
              (resolved to_lower_case resolve (Maps.get (to_lower_case q) r.aliases) r))
          e

    get_command-alias :
        (q name : Text) (r : CommandRegistry W)
        → NoneNamed (to_lower_case q) r
        → Maps.get (to_lower_case q) r.aliases ≡ some name
        → name ≢ []
        → get_command to_lower_case resolve q r ≡ Maps.get name r.commands
    unfolding get_command
    get_command-alias q name r e f h =
        ap
          (λ o.
            found_or to_lower_case resolve o
              (resolved to_lower_case resolve (Maps.get (to_lower_case q) r.aliases) r))
          e
        ∙ ap (λ o. resolved to_lower_case resolve o r) f
        ∙ resolved_some name r h

    get_command-none :
        (q : Text) (r : CommandRegistry W)
        → NoneNamed (to_lower_case q) r
        → Maps.get (to_lower_case q) r.aliases ≡ none
        → get_command to_lower_case resolve q r ≡ none
    unfolding get_command
    get_command-none q r e f =
        ap
          (λ o.
            found_or to_lower_case resolve o
              (resolved to_lower_case resolve (Maps.get (to_lower_case q) r.aliases) r))
          e
        ∙ ap (λ o. resolved to_lower_case resolve o r) f

    -- A command that was just registered is found under its name and, where no command has that
    -- name, under each of its aliases, in upper or lower case.
    pub get_command-register :
        (q : Text) (c : Command W) (r : CommandRegistry W)
        → name_of c ≢ []
        → (to_lower_case q ≡ name_of c)
          ⊎ (Listed (to_lower_case q) (aliases_of c)
              × NoneNamed (to_lower_case q) (register to_lower_case resolve c r))
        → get_command to_lower_case resolve q (register to_lower_case resolve c r) ≡ some c
    unfolding register
    get_command-register q c r named (inl e) =
        get_command-named q (register to_lower_case resolve c r) c (
          subst (λ k. Maps.get k (Maps.set (name_of c) c r.commands) ≡ some c) (sym e)
            (get-set_same (name_of c) c r.commands))
    get_command-register q c r named (inr (h, free)) =
        get_command-alias q (name_of c) (register to_lower_case resolve c r) free
          (set_aliases-Listed (aliases_of c) (to_lower_case q) (name_of c) r.aliases h) named
        ∙ get-set_same (name_of c) c r.commands

    -- Of two commands with an alias in common, the one registered later is found under it; once the
    -- earlier one is unregistered, nothing is found under it any more.
    pub get_command-unregister :
        (q : Text) (a b : Command W) (r : CommandRegistry W)
        → name_of b ≢ []
        → name_of b ≢ name_of a
        → Listed (to_lower_case q) (aliases_of a)
        → Listed (to_lower_case q) (aliases_of b)
        → NoneNamed
            (to_lower_case q)
            (register to_lower_case resolve b (register to_lower_case resolve a r))
        → (get_command to_lower_case resolve q
              (register to_lower_case resolve b (register to_lower_case resolve a r))
            ≡ some b)
          × (get_command to_lower_case resolve q
                (unregister to_lower_case resolve a.definition.name
                  (register to_lower_case resolve b (register to_lower_case resolve a r))).1
              ≡ none)
    unfolding unregister get_command register
    get_command-unregister q a b r named differ h k free =
        let r' = register to_lower_case resolve b (register to_lower_case resolve a r) in
        let there : Maps.get (name_of a) r'.commands ≡ some a =
          get-set_other (name_of b) (name_of a) b (Maps.set (name_of a) a r.commands) differ
          ∙ get-set_same (name_of a) a r.commands in
        (
          get_command-register q b (register to_lower_case resolve a r) named (inr (k, free)),
          ap
                (λ o.
                  get_command to_lower_case resolve q
                    (unregister_found to_lower_case resolve o (name_of a) r').1)
                there
              ∙ get_command-none q
                  (unregister_found to_lower_case resolve (some a) (name_of a) r').1
                  (get-delete (name_of a) (to_lower_case q) r'.commands ∙ ground arith)
                  (delete_aliases-Listed (aliases_of a) (to_lower_case q) r'.aliases h),
        )
