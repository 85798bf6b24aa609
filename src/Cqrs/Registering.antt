-- ===== src/Cqrs/Registering.antt =====
-- What AddHandlers of a command processor does with its handlers.
use watermill.Prelude.{
  String, Bool, true, false, eq_iff, none, some, List, [], ◌∷◌, ◌++◌, append_assoc, append-nil, inl,
  inr, Bool-cases, ◌≡◌, refl, ap, sym, ◌∙◌, arith,
}
use mathlib.Core.List.{Memᴰ}
use watermill.Go.{Outcome, Result}
use watermill.Runtime.{M}
use watermill.PubSub.{Subscriber}
use watermill.Router.Running.{RunState}
use watermill.Cqrs.Defs.{Marshaler, CommandHandler}
use watermill.Cqrs.CommandProcessor.{
  CommandProcessorConfig, CommandProcessor, duplicate_command_handler, has_key,
}
use watermill.Cqrs.AddingCommands.{
  first_duplicate, add_handlers, add_unless_duplicate, add_one_by_one, deprecated_config,
  with_handlers, result_of, new_command_processor,
}

module _ {S V : Type 0} (m : Marshaler S V) where
  abbrev pub command_name : CommandHandler S V → String
  command_name h = m.name h.new_command

  has_key_lem : (k : String) (ks : List String) → Memᴰ k ks → has_key k ks ≡ true
  unfolding has_key
  has_key_lem k _ (Memᴰ.head {x} {xs} e) = ground (arith, eq_iff x k)
  has_key_lem k _ (Memᴰ.tail {x} {xs} h) = ground (arith, has_key_lem k xs h)

  -- a name that was handled already is found behind other handlers too
  found_again :
      (h : CommandHandler S V) (ks : List String) {hs : List (CommandHandler S V)}
      → Memᴰ (command_name h) ks
      → Memᴰ h hs
      → (name : String) × (first_duplicate m ks hs ≡ some name)
  unfolding first_duplicate
  found_again h ks there (Memᴰ.head {x} {xs} e) =
      (command_name x, ground (arith, e, has_key_lem (command_name h) ks there))
  found_again h ks there (Memᴰ.tail {x} {xs} i) = elim (Bool-cases (has_key (command_name x) ks)) [
    | inl e ↦ (command_name x, rw e refl)
    | inr e ↦ rw e (found_again h (command_name x ∷ ks) (Memᴰ.tail there) i)
  ]

  duplicate_found :
      (xs : List (CommandHandler S V)) (h g : CommandHandler S V) (ys : List (CommandHandler S V))
      (ks : List String)
      → Memᴰ g ys
      → command_name g ≡ command_name h
      → (name : String) × (first_duplicate m ks (xs ++ (h ∷ ys)) ≡ some name)
  unfolding first_duplicate
  duplicate_found [] h g ys ks i same = elim (Bool-cases (has_key (command_name h) ks)) [
    | inl e ↦ (command_name h, rw e refl)
    | inr e ↦ rw e (found_again g (command_name h ∷ ks) (Memᴰ.head same) i)
  ]
  duplicate_found (x ∷ xs) h g ys ks i same = elim (Bool-cases (has_key (command_name x) ks)) [
    | inl e ↦ (command_name x, rw e refl)
    | inr e ↦ rw e (duplicate_found xs h g ys (command_name x ∷ ks) i same)
  ]

  -- When two of the handlers given to one call of AddHandlers are for commands of one name, it returns
  -- a DuplicateCommandHandlerError and changes neither the processor nor the router nor anything else.
  pub add_handlers_rejects_duplicates :
      (is_pointer : V → Bool) (c : CommandProcessorConfig S V) (xs : List (CommandHandler S V))
      (h g : CommandHandler S V) (ys : List (CommandHandler S V))
      (s : RunState S × CommandProcessor S V)
      → Memᴰ g ys
      → command_name g ≡ command_name h
      → (name : String) × (add_handlers is_pointer c m (xs ++ (h ∷ ys)) s
          ≡ (Outcome.done (some (duplicate_command_handler name)), s))
  unfolding add_handlers add_unless_duplicate
  add_handlers_rejects_duplicates is_pointer c xs h g ys s i same =
      let (name, e) = duplicate_found xs h g ys [] i same in (name, rw e refl)

  -- NewCommandProcessor gives every handler to AddHandlers alone
  each_appended :
      (is_pointer : V → Bool) (c : CommandProcessorConfig S V) (hs : List (CommandHandler S V))
      (s : RunState S) (p : CommandProcessor S V)
      → c.disable_router_auto_add_handlers ≡ true
      → add_one_by_one is_pointer c m hs (s, p)
        ≡ (Outcome.done none, (s, record p { handlers = p.handlers ++ hs }))
  unfolding add_one_by_one add_handlers add_unless_duplicate first_duplicate has_key
  each_appended is_pointer c [] s p off =
      ap (λ l. (Outcome.done none, (s, record p { handlers = l }))) (sym (append-nil p.handlers))
  each_appended is_pointer c (h ∷ hs) s p off =
      rw off (each_appended is_pointer c hs s (record p { handlers = p.handlers ++ (h ∷ []) }) off)
      ∙ ap (λ l. (Outcome.done none, (s, record p { handlers = l })))
          (append_assoc p.handlers (h ∷ []) hs)

  -- With a topic, a subscriber constructor and a marshaler, NewCommandProcessor takes every list of
  -- handlers that is not empty, also one in which two handlers are for the same command, and the
  -- router is not changed.
  pub new_command_processor_lem :
      (is_pointer : V → Bool) (h : CommandHandler S V) (hs : List (CommandHandler S V))
      (generate_topic : String → String) (construct : String → M S (Result (Subscriber S)))
      (s : RunState S)
      → new_command_processor is_pointer (h ∷ hs) (some generate_topic) (some construct) (some m) s
        ≡ (
          Outcome.done (
              Result.ok (record {
                has_router = false;
                handlers = h ∷ hs;
                config = deprecated_config generate_topic construct (some m);
              })),
          s,
        )
  unfolding new_command_processor with_handlers
  new_command_processor_lem is_pointer h hs generate_topic construct s =
      let c = deprecated_config generate_topic construct (some m) in
      ap (λ t. result_of t.0 t.1)
        (each_appended is_pointer c (h ∷ hs) s
          (record { has_router = false; handlers = []; config = c }) refl)
