-- ===== src/Dashboard/Interfaces/Merged.antt =====
-- What the merged communication of a module holds
-- (dashboard/packages/api/src/routers/dashboard.ts).
use robotics_pacific_rim.Base.{
  ℕ, zero, suc, ◌≡◌, refl, ap, sym, ◌∙◌, ◌⊎◌, ◌↔◌, inl, inr, Bool, true, false, not, some, List, [],
  ◌∷◌, ◌++◌, arith, Bool-cases, select, get_elem?, Text, text, eq_text, eq_text_iff, eq_text_refl,
  has_text,
}
use robotics_pacific_rim.Dashboard.Details.{ModuleCommunicationItem}
use robotics_pacific_rim.Dashboard.Interfaces.{
  is_provider_communication_item, route_key, is_config, config_item_duplicates_public_provider,
  provider_keys, merge_module_communication_items, without_first,
}

abbrev pub is_consumer : ModuleCommunicationItem → Bool
is_consumer item = not (is_provider_communication_item item)

-- Some provider of the items has the key.
abbrev pub HasProvider : List ModuleCommunicationItem → Text → Type 0
HasProvider items key =
    (i : ℕ) × (provider : ModuleCommunicationItem) × (get_elem? items i ≡ some provider)
    × (is_provider_communication_item provider ≡ true)
    × (route_key provider.kind provider.name ≡ key)

has-HasProvider :
    (key : Text) (items : List ModuleCommunicationItem)
    → has_text key (provider_keys items) ≡ true
    → HasProvider items key
unfolding has_text
has-HasProvider key [] h = cc
has-HasProvider key (item ∷ items) h = elim (Bool-cases (is_provider_communication_item item)) [
  | inr e ↦ later (has-HasProvider key items (rw e at h))
  | inl e ↦ elim (Bool-cases (eq_text key (route_key item.kind item.name))) [
    | inl k ↦ (0, item, refl, e, sym ((eq_text_iff _ _).0 k))
    | inr k ↦ later (has-HasProvider key items (rw (e, k) at h))
  ]
]
  where
    later : HasProvider items key → HasProvider (item ∷ items) key
    later (i, provider, at, p, k) = (suc i, provider, at, p, k)

HasProvider-has :
    (key : Text) (items : List ModuleCommunicationItem)
    → HasProvider items key
    → has_text key (provider_keys items) ≡ true
unfolding has_text
HasProvider-has key [] (i, provider, at, p, k) = cc
HasProvider-has key (item ∷ items) (zero, provider, at, p, k) =
    let same : item ≡ provider = cc at in
    let e : is_provider_communication_item item ≡ true =
      ap is_provider_communication_item same ∙ p in
    let named : route_key item.kind item.name ≡ key =
      ap (λ (x : ModuleCommunicationItem). route_key x.kind x.name) same ∙ k in
    rw (e, named, eq_text_refl key) refl
HasProvider-has key (item ∷ items) (suc i, provider, at, p, k) =
    let ih = HasProvider-has key items (i, provider, at, p, k) in
    elim (Bool-cases (is_provider_communication_item item)) [
      | inl e ↦ rw e (ground (arith, ih))
      | inr e ↦ rw e ih
    ]

module _ (service_name : Text) (idl_items : List ModuleCommunicationItem) where
  -- A provider of the configuration that the public interface provides: under its own name, or under
  -- the name of its message type without the service's.
  abbrev pub IsDuplicate : ModuleCommunicationItem → Type 0
  IsDuplicate item =
      (is_config item.source ≡ true)
      × (is_provider_communication_item item ≡ true)
      × (HasProvider idl_items (route_key item.kind item.name)
          ⊎ HasProvider idl_items
              (route_key item.kind (without_first (service_name ++ text ".") item.message_type)))

  abbrev is_kept : ModuleCommunicationItem → Bool
  is_kept item =
      not (config_item_duplicates_public_provider item service_name (provider_keys idl_items))

  kept-new : (item : ModuleCommunicationItem) → is_kept item ≡ true → ¬ IsDuplicate item
  unfolding config_item_duplicates_public_provider
  kept-new item h (c, p, inl k) = let has = HasProvider-has _ idl_items k in ground arith
  kept-new item h (c, p, inr k) = let has = HasProvider-has _ idl_items k in ground arith

  kept_not : (item : ModuleCommunicationItem) → is_kept item ≡ false → IsDuplicate item
  unfolding config_item_duplicates_public_provider
  kept_not item h = (
    ground (arith, h),
    ground (arith, h),
    elim (Bool-cases (has_text own (provider_keys idl_items))) [
      | inl e ↦ inl (has-HasProvider own idl_items e)
      | inr e ↦ inr (has-HasProvider ref idl_items (ground (arith, h, e)))
    ],
  )
    where
      own : Text
      own = route_key item.kind item.name

      ref : Text
      ref = route_key item.kind (without_first (service_name ++ text ".") item.message_type)

  new-kept : (item : ModuleCommunicationItem) → ¬ IsDuplicate item → is_kept item ≡ true
  new-kept item h = elim (Bool-cases (is_kept item)) [
    | inl e ↦ e
    | inr e ↦ absurd (h (kept_not item e))
  ]

-- The merged items are some of the configuration's and then all of the public interface's. Of the
-- configuration's, in their order and as often as they stand there, exactly those are kept that are
-- not providers with a public provider of the same kind, under the item's own name or under its
-- message type's without the service's name.
pub merge_module_communication_items-IsDuplicate :
    (service_name : Text) (config_items idl_items : List ModuleCommunicationItem)
    → (keep : ModuleCommunicationItem → Bool) × (merge_module_communication_items service_name
          config_items idl_items
        ≡ select keep config_items ++ idl_items)
      × ((item : ModuleCommunicationItem)
          → (keep item ≡ true) ↔ ¬ IsDuplicate service_name idl_items item)
unfolding merge_module_communication_items
merge_module_communication_items-IsDuplicate service_name config_items idl_items =
    (_, refl, λ item. (kept-new service_name idl_items item, new-kept service_name idl_items item))
