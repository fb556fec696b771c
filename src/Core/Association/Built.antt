-- ===== src/Core/Association/Built.antt =====
-- Which association events the two constructors build.
use agent_workboard.Prelude.{
  ◌≡◌, refl, sym, subst, ◌↔◌, ◌⊎◌, inl, inr, true, none, ok, passed, not-eq-false, ap, ◌∙◌,
}
use agent_workboard.Core.Association.{AssociationAction, transition, v1}
use agent_workboard.Core.Association.Source.{AssociationSource}
use agent_workboard.Core.Association.Authority.{AssociationAuthority}
use agent_workboard.Core.Association.Events.{
  AssociationEvent, NewAssociationEvent, NewManualAssociationEvent, explicit_event, new_event,
  manual_event, is_manual_action, new_manual, decode_event,
}
use agent_workboard.Core.Association.Decoding.{
  IsProvenance, moved, decided, IsEvent, build_sound, build_complete, decode_event_iff,
}

-- An event that one of the two constructors builds.
pub data IsBuilt (e : AssociationEvent) : Type 0 where
  integrated : (input : NewAssociationEvent) → new_event input ≡ ok e → IsBuilt e
  stated : (input : NewManualAssociationEvent) → new_manual input ≡ ok e → IsBuilt e

IsBuilt-decodes : (e : AssociationEvent) → IsBuilt e → decode_event e ≡ ok e
unfolding new_event new_manual
IsBuilt-decodes e (integrated input h) =
    let (same, a, b, c) = build_sound (explicit_event input) e h in
    (decode_event_iff e e).1 (
      subst IsEvent same
          (record { versioned = refl; provenance = moved; reason = a; key = b; evidence = c }),
      refl,
    )
IsBuilt-decodes e (stated input h) =
    let (action, h1) = passed _ _ _ h in
    let (same, a, b, c) = build_sound (manual_event input) e h1 in
    (decode_event_iff e e).1 (
      subst IsEvent same (record {
        versioned = refl;
        provenance = decided input.action (not-eq-false _ action);
        reason = a;
        key = b;
        evidence = c;
      }),
      refl,
    )

-- An event whose origin is an integration carries no earlier event that it replaces.
abbrev pub IsReplacement : AssociationEvent → Type 0
IsReplacement e = (e.source ≡ AssociationSource.manual) ⊎ (e.supersedes_event_id ≡ none)

IsBuilt-replaces : (e : AssociationEvent) → IsBuilt e → IsReplacement e
unfolding new_event new_manual
IsBuilt-replaces e (integrated input h) =
    let same = (build_sound (explicit_event input) e h).0 in
    inr (sym (ap (λ x. x.supersedes_event_id) same))
IsBuilt-replaces e (stated input h) =
    let (_, h1) = passed _ _ _ h in
    let same = (build_sound (manual_event input) e h1).0 in inl (sym (ap (λ x. x.source) same))

abbrev explicit_input : AssociationEvent → NewAssociationEvent
explicit_input e = record {
  id = e.id;
  conversation_id = e.conversation_id;
  conversation = e.conversation;
  effective_at = e.effective_at;
  recorded_at = e.recorded_at;
  target = e.target;
  reason = e.reason;
  idempotency_key = e.idempotency_key;
  evidence = e.evidence;
}

abbrev manual_input : AssociationEvent → NewManualAssociationEvent
manual_input e = record {
  id = e.id;
  conversation_id = e.conversation_id;
  conversation = e.conversation;
  effective_at = e.effective_at;
  recorded_at = e.recorded_at;
  action = e.action;
  target = e.target;
  reason = e.reason;
  idempotency_key = e.idempotency_key;
  supersedes_event_id = e.supersedes_event_id;
  evidence = e.evidence;
}

provenance_cases :
    {a : AssociationAction} {s : AssociationSource} {t : AssociationAuthority}
    → IsProvenance a s t
    → ((a ≡ transition)
        × (s ≡ AssociationSource.explicit_integration)
        × (t ≡ AssociationAuthority.explicit_integration))
      ⊎ ((is_manual_action a ≡ true)
          × (s ≡ AssociationSource.manual)
          × (t ≡ AssociationAuthority.manual))
provenance_cases moved = inl (refl, refl, refl)
provenance_cases (decided a h) = inr (h, refl, refl)

explicit-eq :
    (e : AssociationEvent)
    → e.schema_version ≡ v1
    → e.action ≡ transition
    → e.source ≡ AssociationSource.explicit_integration
    → e.authority ≡ AssociationAuthority.explicit_integration
    → e.supersedes_event_id ≡ none
    → explicit_event (explicit_input e) ≡ e
explicit-eq e a b c d f = cc

manual-eq :
    (e : AssociationEvent)
    → e.schema_version ≡ v1
    → e.source ≡ AssociationSource.manual
    → e.authority ≡ AssociationAuthority.manual
    → manual_event (manual_input e) ≡ e
manual-eq e a b c = cc

IsEvent-IsBuilt : (e : AssociationEvent) → IsEvent e → IsReplacement e → IsBuilt e
unfolding new_event new_manual
IsEvent-IsBuilt e w r = elim (provenance_cases w.provenance) [
  | inl (a, s, t) ↦
      let fresh : e.supersedes_event_id ≡ none = elim r [ inl m ↦ cc | inr n ↦ n ] in
      integrated (explicit_input e) (
        build_complete (explicit_event (explicit_input e)) w.reason w.key w.evidence
        ∙ ap ok (explicit-eq e w.versioned a s t fresh))
  | inr (a, s, t) ↦ stated (manual_input e) (
      rw a (
        build_complete (manual_event (manual_input e)) w.reason w.key w.evidence
        ∙ ap ok (manual-eq e w.versioned s t)))
]

-- The events that the constructors build are exactly those that decode to themselves and, when an
-- integration made them, replace no earlier event.
pub IsBuilt-iff : (e : AssociationEvent) → IsBuilt e ↔ ((decode_event e ≡ ok e) × IsReplacement e)
IsBuilt-iff e = (
  λ b. (IsBuilt-decodes e b, IsBuilt-replaces e b),
  λ (h, r). IsEvent-IsBuilt e ((decode_event_iff e e).0 h).0 r,
)
