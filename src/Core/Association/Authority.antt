-- ===== src/Core/Association/Authority.antt =====
-- crates/core/src/association.rs: how far an association is trusted.
use agent_workboard.Prelude.{ℕ, Text, text}

pub data AssociationAuthority : Type 0 where
  conflict weak_hint correlated_inference exact_observation : AssociationAuthority
  explicit_integration manual : AssociationAuthority

pub tier : AssociationAuthority → ℕ
tier conflict = 0
tier weak_hint = 1
tier correlated_inference = 2
tier exact_observation = 3
tier explicit_integration = 4
tier manual = 5

pub confidence_label : AssociationAuthority → Text
confidence_label manual = text "confirmed"
confidence_label explicit_integration = text "explicit"
confidence_label exact_observation = text "strong_inference"
confidence_label correlated_inference = text "strong_inference"
confidence_label weak_hint = text "ambiguous"
confidence_label conflict = text "ambiguous"
