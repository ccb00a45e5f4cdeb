-- ===== src/Volumes/Data/Keys.antt =====
-- The names of the attributes that pkg/dc2/dispatcher_volume.go gives to a volume.
use dc.Prelude.{String, ◌≡◌, Bool, Option, none, some, List, [], ◌∷◌, ◌==◌, inl, inr, Bool-cases}
use dc.Storage.{tag_attribute_name}
use dc.Dispatcher.{Tag, TagSpecification}
use dc.Dispatcher.Names
use dc.LaunchTemplate.Versions.{Agrees, Agrees-append}
use dc.Volumes.Data.{
  CreateRequest, kms_attribute, tag_attributes, specification_attributes, volume_attributes,
}

-- The test gives the same answer for the names of a volume's own attributes and for all tags.
pub record Excludes (test : String → Bool) (b : Bool) : Type 0 where
  pub zone : test Names.availability_zone ≡ b
  pub time : test Names.create_time ≡ b
  pub encrypted : test Names.encrypted ≡ b
  pub kind : test Names.volume_kind ≡ b
  pub iops : test Names.iops ≡ b
  pub throughput : test Names.throughput ≡ b
  pub key : test Names.kms_key_id ≡ b
  pub tags : (k : String) → test (tag_attribute_name k) ≡ b

module _ (test : String → Bool) (b : Bool) (none_of : Excludes test b) where
  tag_attributes-Agrees : (ts : List Tag) → Agrees test b (tag_attributes ts)
  unfolding tag_attributes
  tag_attributes-Agrees [] = tt
  tag_attributes-Agrees (t ∷ ts) = (none_of.tags t.key, tag_attributes-Agrees ts)

  specification_attributes-Agrees :
      (ss : List TagSpecification) → Agrees test b (specification_attributes ss)
  unfolding specification_attributes
  specification_attributes-Agrees [] = tt
  specification_attributes-Agrees (s ∷ ss) =
      Agrees-append test b (tag_attributes s.tags) (specification_attributes ss)
        (tag_attributes-Agrees s.tags) (specification_attributes-Agrees ss)

  kms_attribute-Agrees : (k : Option String) → Agrees test b (kms_attribute k)
  kms_attribute-Agrees none = tt
  kms_attribute-Agrees (some k) = elim (Bool-cases (k == "")) [
    | inl e ↦ rw e tt
    | inr e ↦ rw e (none_of.key, tt)
  ]

  pub volume_attributes-Agrees :
      (r : CreateRequest) (now : String) → Agrees test b (volume_attributes r now)
  unfolding volume_attributes
  volume_attributes-Agrees r now = (
    none_of.zone,
    (
      none_of.time,
      (
        none_of.encrypted,
        (
          none_of.kind,
          (
            none_of.iops,
            (
              none_of.throughput,
              Agrees-append test b (kms_attribute r.kms_key_id)
                  (specification_attributes r.tag_specifications)
                  (kms_attribute-Agrees r.kms_key_id)
                  (specification_attributes-Agrees r.tag_specifications),
            ),
          ),
        ),
      ),
    ),
  )
