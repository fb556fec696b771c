-- ===== src/Core/Association/Source.antt =====
-- crates/core/src/association.rs: who made an association.
pub data AssociationSource : Type 0 where
  explicit_integration manual : AssociationSource
