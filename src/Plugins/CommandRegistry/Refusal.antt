-- ===== src/Plugins/CommandRegistry/Refusal.antt =====
-- packages/wazeko/src/plugins/command-loader.ts: which commands a message can have run.
use wazeko.Prelude.{
  ◌≡◌, ◌⊎◌, inl, inr, refl, sym, ap, ◌∙◌, true, Bool-cases, Option, none, some, List, [], ◌∷◌, ◌++◌,
  false, arith,
}
use wazeko.Text.{Text}
use wazeko.Text.Split.{trim, split_spaces, is_empty}
use wazeko.Types.Message.{Message}
use wazeko.Plugins.Middleware.{
  Settled, CommandContext, is_set, MiddlewareFn, Execution, create_admin_guard, execute,
}
use wazeko.Plugins.Middleware.Guard.{may_run, execute-refuses}
use wazeko.Plugins.CommandRegistry.{Command, CommandRegistry, extract_message_text, get_command}
use wazeko.Plugins.CommandRegistry.Dispatch.{
  has, strip_prefix, Handled, ignored, ran, context, run_command, dispatch, dispatch_stripped,
  handle_message,
}

module _ {W : Type 0} where
  ran-end : Settled × Execution W → Handled W → Settled × Execution W
  ran-end end ignored = end
  ran-end end (ran s x) = (s, x)

  ran_injective :
      (s t : Settled) (x y : Execution W)
      → ran s x ≡ ran t y
      → ◌≡◌ {A = Settled × Execution W} (s, x) (t, y)
  unfolding ran-end
  ran_injective s t x y e = ap (ran-end (s, x)) e

module _ (to_lower_case : Text → Text) (resolve : Text → Text) {W : Type 0} (reply : Text → W → W)
    (ms ns : List (MiddlewareFn W)) (message : Message) (r : CommandRegistry W) (w : W)
    (s : Settled) (x : Execution W) where
  abbrev pub context_of : Text → List Text → Command W → CommandContext
  context_of part args c = context to_lower_case resolve message (to_lower_case part) args c r

  -- What ran is the pipeline for the command that the first word behind the prefix names, in lower
  -- case; it did not reach that command, or the sender may run it.
  pub record Permitted : Type 0 where
    pub stripped : Text
    pub part : Text
    pub args : List Text
    pub command : Command W
    pub behind_prefix : strip_prefix r.prefix (extract_message_text message.content) ≡ some stripped
    pub words : split_spaces (trim stripped) ≡ part ∷ args
    pub found : get_command to_lower_case resolve (to_lower_case part) r ≡ some command
    pub ran_it :
        execute r.pipeline
          (context_of part args command)
          (command.execute (context_of part args command))
          w
        ≡ (s, x)
    pub permitted :
        (x.reached ≡ 0)
        ⊎ ((has message.source.sender.user r.owner_jids ≡ true)
            ⊎ ((is_set command.definition.owner_only ≡ false)
                × (is_set command.definition.admin_only ≡ false)))

  allowed :
      (part : Text) (args : List Text) (c : Command W)
      → may_run (context_of part args c) c.definition ≡ true
      → (has message.source.sender.user r.owner_jids ≡ true)
        ⊎ ((is_set c.definition.owner_only ≡ false) × (is_set c.definition.admin_only ≡ false))
  allowed part args c h = elim (Bool-cases (has message.source.sender.user r.owner_jids)) [
    | inl owner ↦ inl owner
    | inr other ↦ inr (ground arith)
  ]

  module _ (stripped part : Text) (args : List Text)
      (behind_prefix : strip_prefix r.prefix (extract_message_text message.content) ≡ some stripped)
      (words : split_spaces (trim stripped) ≡ part ∷ args) where
    run_command-Permitted :
        (o : Option (Command W))
        → r.pipeline ≡ ms ++ create_admin_guard reply ∷ ns
        → get_command to_lower_case resolve (to_lower_case part) r ≡ o
        → run_command to_lower_case resolve message (to_lower_case part) args o r w ≡ ran s x
        → Permitted
    unfolding run_command
    run_command-Permitted none e found h = absurd cc
    run_command-Permitted (some c) e found h =
        let ctx = context_of part args c in
        let end = ran_injective _ s _ x h in
        record {
          stripped = stripped;
          part = part;
          args = args;
          command = c;
          behind_prefix = behind_prefix;
          words = words;
          found = found;
          ran_it = end;
          permitted = elim (Bool-cases (may_run ctx c.definition)) [
            | inl may ↦ inr (allowed part args c may)
            | inr refused ↦ inl (
                ap (λ (y : Settled × Execution W). y.1.reached) (sym end)
                ∙ ap (λ p. (execute p ctx (c.execute ctx) w).1.reached) e
                ∙ execute-refuses reply ms ns ctx c.definition (c.execute ctx) w refl refused)
          ];
        }

  dispatch-Permitted :
      (stripped : Text) (parts : List Text)
      → strip_prefix r.prefix (extract_message_text message.content) ≡ some stripped
      → split_spaces (trim stripped) ≡ parts
      → r.pipeline ≡ ms ++ create_admin_guard reply ∷ ns
      → dispatch to_lower_case resolve message parts r w ≡ ran s x
      → Permitted
  unfolding dispatch
  dispatch-Permitted stripped [] k l e h = absurd cc
  dispatch-Permitted stripped (part ∷ args) k l e h =
      elim (Bool-cases (is_empty (to_lower_case part))) [
        | inl empty ↦ absurd (let h' = rw empty at h in cc)
        | inr full ↦ run_command-Permitted stripped part args k l _ e refl (rw full at h)
      ]

  stripped-Permitted :
      (o : Option Text)
      → strip_prefix r.prefix (extract_message_text message.content) ≡ o
      → r.pipeline ≡ ms ++ create_admin_guard reply ∷ ns
      → dispatch_stripped to_lower_case resolve message o r w ≡ ran s x
      → Permitted
  unfolding dispatch_stripped
  stripped-Permitted none k e h = absurd cc
  stripped-Permitted (some t) k e h = dispatch-Permitted t (split_spaces (trim t)) k refl e h

  -- Where the pipeline has the admin guard anywhere, what `handleMessage` runs for a message is the
  -- pipeline for the command that is registered under the first word behind the prefix, in lower
  -- case. That command is reached only if the sender is among the owners or the command is neither
  -- for owners nor for admins.
  pub handle_message-Permitted :
      r.pipeline ≡ ms ++ create_admin_guard reply ∷ ns
      → handle_message to_lower_case resolve message r w ≡ ran s x
      → Permitted
  unfolding handle_message
  handle_message-Permitted e h =
      elim (Bool-cases (is_empty (extract_message_text message.content))) [
        | inl empty ↦ absurd (let h' = rw empty at h in cc)
        | inr full ↦ stripped-Permitted _ refl e (rw full at h)
      ]
