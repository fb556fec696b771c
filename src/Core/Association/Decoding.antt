-- ===== src/Core/Association/Decoding.antt =====
-- Which association events decode, and how they relate to those that the constructors build.
use agent_workboard.Prelude.{
  ◌≡◌, refl, ◌↔◌, true, false, not, is_blank, is_empty, ok, ◌==◌, passed, >>=-eq-ok, ok-injective,
  not-eq-false, arith, ap, ◌∙◌,
}
use agent_workboard.Core.Association.{
  AssociationAction, transition, assign, correct, confirm, v1, AssociationEventVersion,
}
use agent_workboard.Core.Association.Source.{AssociationSource}
use agent_workboard.Core.Association.Authority.{AssociationAuthority}
use agent_workboard.Core.Association.Events.{
  AssociationEvent, build, is_manual_action, check_provenance, decode_event,
}

-- Who may take which action: integrations move conversations, people do the rest.
pub data IsProvenance : AssociationAction → AssociationSource → AssociationAuthority → Type 0 where
  moved :
      IsProvenance transition AssociationSource.explicit_integration
        AssociationAuthority.explicit_integration
  decided :
      (action : AssociationAction)
      → is_manual_action action ≡ true
      → IsProvenance action AssociationSource.manual AssociationAuthority.manual

-- An event of the current version with a reason, a key, evidence and a proper origin.
pub record IsEvent (e : AssociationEvent) : Type 0 where
  pub versioned : e.schema_version ≡ v1
  pub provenance : IsProvenance e.action e.source e.authority
  pub reason : is_blank e.reason ≡ false
  pub key : is_blank e.idempotency_key ≡ false
  pub evidence : is_empty e.evidence ≡ false

IsProvenance-sound :
    (a : AssociationAction) (s : AssociationSource) (t : AssociationAuthority) {u : Unit {0}}
    → check_provenance a s t ≡ ok u
    → IsProvenance a s t
unfolding check_provenance is_manual_action
IsProvenance-sound transition AssociationSource.explicit_integration AssociationAuthority.conflict
      h =
    cc
IsProvenance-sound transition AssociationSource.explicit_integration AssociationAuthority.weak_hint
      h =
    cc
IsProvenance-sound transition AssociationSource.explicit_integration
      AssociationAuthority.correlated_inference h =
    cc
IsProvenance-sound transition AssociationSource.explicit_integration
      AssociationAuthority.exact_observation h =
    cc
IsProvenance-sound transition AssociationSource.explicit_integration
      AssociationAuthority.explicit_integration h =
    moved
IsProvenance-sound transition AssociationSource.explicit_integration AssociationAuthority.manual h =
    cc
IsProvenance-sound assign AssociationSource.explicit_integration t h = cc
IsProvenance-sound correct AssociationSource.explicit_integration t h = cc
IsProvenance-sound confirm AssociationSource.explicit_integration t h = cc
IsProvenance-sound transition AssociationSource.manual t h = cc
IsProvenance-sound assign AssociationSource.manual AssociationAuthority.conflict h = cc
IsProvenance-sound assign AssociationSource.manual AssociationAuthority.weak_hint h = cc
IsProvenance-sound assign AssociationSource.manual AssociationAuthority.correlated_inference h = cc
IsProvenance-sound assign AssociationSource.manual AssociationAuthority.exact_observation h = cc
IsProvenance-sound assign AssociationSource.manual AssociationAuthority.explicit_integration h = cc
IsProvenance-sound assign AssociationSource.manual AssociationAuthority.manual h =
    decided assign refl
IsProvenance-sound correct AssociationSource.manual AssociationAuthority.conflict h = cc
IsProvenance-sound correct AssociationSource.manual AssociationAuthority.weak_hint h = cc
IsProvenance-sound correct AssociationSource.manual AssociationAuthority.correlated_inference h = cc
IsProvenance-sound correct AssociationSource.manual AssociationAuthority.exact_observation h = cc
IsProvenance-sound correct AssociationSource.manual AssociationAuthority.explicit_integration h = cc
IsProvenance-sound correct AssociationSource.manual AssociationAuthority.manual h =
    decided correct refl
IsProvenance-sound confirm AssociationSource.manual AssociationAuthority.conflict h = cc
IsProvenance-sound confirm AssociationSource.manual AssociationAuthority.weak_hint h = cc
IsProvenance-sound confirm AssociationSource.manual AssociationAuthority.correlated_inference h = cc
IsProvenance-sound confirm AssociationSource.manual AssociationAuthority.exact_observation h = cc
IsProvenance-sound confirm AssociationSource.manual AssociationAuthority.explicit_integration h = cc
IsProvenance-sound confirm AssociationSource.manual AssociationAuthority.manual h =
    decided confirm refl

IsProvenance-complete :
    (a : AssociationAction) (s : AssociationSource) (t : AssociationAuthority)
    → IsProvenance a s t
    → check_provenance a s t ≡ ok tt
unfolding check_provenance is_manual_action
IsProvenance-complete a s t moved = refl
IsProvenance-complete a s t (decided transition h) = cc
IsProvenance-complete a s t (decided assign h) = refl
IsProvenance-complete a s t (decided correct h) = refl
IsProvenance-complete a s t (decided confirm h) = refl

version_path : (v : AssociationEventVersion) → (v.value == 1) ≡ true → v ≡ v1
version_path v h = ground arith

pub build_sound :
    (e f : AssociationEvent)
    → build e ≡ ok f
    → (e ≡ f)
      × (is_blank e.reason ≡ false)
      × (is_blank e.idempotency_key ≡ false)
      × (is_empty e.evidence ≡ false)
unfolding build
build_sound e f h =
    let (a, h1) = passed _ _ _ h in
    let (b, h2) = passed _ _ _ h1 in let (c, h3) = passed _ _ _ h2 in (ok-injective h3, a, b, c)

pub build_complete :
    (e : AssociationEvent)
    → is_blank e.reason ≡ false
    → is_blank e.idempotency_key ≡ false
    → is_empty e.evidence ≡ false
    → build e ≡ ok e
unfolding build
build_complete e a b c = simp (a, b, c)

-- The decoder accepts exactly the well-formed events, and leaves them as they are.
pub decode_event_iff : (e f : AssociationEvent) → (decode_event e ≡ ok f) ↔ (IsEvent e × (e ≡ f))
unfolding decode_event
decode_event_iff e f = (
  λ h.
      let (a, h1) = passed _ _ _ h in
      let (u, b, h2) = >>=-eq-ok (check_provenance e.action e.source e.authority) _ h1 in
      let (same, c, d, g) = build_sound e f h2 in
      (
        record {
          versioned = version_path e.schema_version (not-eq-false _ a);
          provenance = IsProvenance-sound e.action e.source e.authority b;
          reason = c;
          key = d;
          evidence = g;
        },
        same,
      ),
  λ (w, same).
      let t : not (e.schema_version.value == 1) ≡ false = rw (w.versioned) refl in
      let accepted : decode_event e ≡ ok e = simp (
        t,
        IsProvenance-complete e.action e.source e.authority w.provenance,
        build_complete e w.reason w.key w.evidence,
      ) in
      accepted ∙ ap ok same,
)
