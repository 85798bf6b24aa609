-- ===== src/Cqrs/GroupOrder.antt =====
-- The loop of a group of event handlers against its specification.
use watermill.Prelude.{
  ℕ, String, Bool, true, false, ◌==◌, Option, none, some, List, [], ◌∷◌, keep, ◌≡◌, refl, ap, inl,
  inr, Bool-cases,
}
use watermill.Go.{Err, pure, ◌>>=◌}
use watermill.Runtime.{World, M, read}
use watermill.Cqrs.Defs.{Marshaler, GroupEventHandler, decode_and_handle}
use watermill.Cqrs.EventProcessor.{unless_acked}
use watermill.Cqrs.EventGroups.{
  EventGroupProcessorConfig, call_group_handler, after_group, handle_by_each, handle_group,
  no_handler_found,
}

module _ {S V : Type 0} (c : EventGroupProcessorConfig S V) (marshaler : Marshaler S V)
    (group name : String) (msg : ℕ) where
  -- one handler is given the event
  abbrev pub handle_one : GroupEventHandler S V → M S (Option Err)
  handle_one h = decode_and_handle marshaler msg h.new_event (call_group_handler c group h name msg)

  -- The handlers one after another, up to the first error.
  abbrev pub in_order : List (GroupEventHandler S V) → M S (Option Err)
  in_order [] = pure none
  in_order (h ∷ hs) = do
    err ← handle_one h
    elim err [ some e ↦ pure (some e) | none ↦ in_order hs ]

  abbrev pub is_for : GroupEventHandler S V → Bool
  is_for h = name == marshaler.name h.new_event

  -- What a group does with an event, given the handlers that are for it.
  abbrev pub by_those : List (GroupEventHandler S V) → M S (Option Err)
  by_those [] = pure (unless_acked c.ack_on_unknown_event no_handler_found)
  by_those (h ∷ hs) = in_order (h ∷ hs)

  abbrev then_in_order : M S (Option Err) → GroupEventHandler S V → M S (Option Err)
  then_in_order rest h = do err ← handle_one h; elim err [ some e ↦ pure (some e) | none ↦ rest ]

  by_each-in_order :
      (hs : List (GroupEventHandler S V))
      → handle_by_each c marshaler group name msg true hs ≡ in_order (keep is_for hs)
  unfolding handle_by_each after_group
  by_each-in_order [] = refl
  by_each-in_order (h ∷ hs) = elim (Bool-cases (is_for h)) [
    | inl e ↦ rw e (ap (λ rest. then_in_order rest h) (by_each-in_order hs))
    | inr e ↦ rw e (by_each-in_order hs)
  ]

  by_each-by_those :
      (hs : List (GroupEventHandler S V))
      → handle_by_each c marshaler group name msg false hs ≡ by_those (keep is_for hs)
  unfolding handle_by_each after_group
  by_each-by_those [] = refl
  by_each-by_those (h ∷ hs) = elim (Bool-cases (is_for h)) [
    | inl e ↦ rw e (ap (λ rest. then_in_order rest h) (by_each-in_order hs))
    | inr e ↦ rw e (by_each-by_those hs)
  ]

module _ {S V : Type 0} where
  -- For any message and any handlers, the handler function of a group gives the event to exactly those
  -- of its handlers whose event has the name of the message, in their order, and stops at the first
  -- error; if there is none of them, it returns an error unless AckOnUnknownEvent is set.
  pub handle_group_lem :
      (c : EventGroupProcessorConfig S V) (marshaler : Marshaler S V) (group : String)
      (handlers : List (GroupEventHandler S V)) (msg : ℕ) (w : World S)
      → let name = marshaler.name_from_message (w.cells msg) in
        handle_group c marshaler group handlers msg w
        ≡ by_those c marshaler group name msg (keep (is_for c marshaler group name msg) handlers) w
  unfolding handle_group read
  handle_group_lem c marshaler group handlers msg w =
      let name = marshaler.name_from_message (w.cells msg) in
      ap (λ f. f w) (by_each-by_those c marshaler group name msg handlers)
