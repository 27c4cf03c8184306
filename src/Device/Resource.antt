-- ===== src/Device/Resource.antt =====
-- Model of kernel/device/resource.c and kernel/include/device/resource.h: the hardware resources of
-- a device.
use it_works_os.Base.{
  ℕ, zero, suc, ◌+◌, ◌-◌, ◌%◌, ◌^◌, ◌≡◌, refl, arith, Bool, true, false, not, Option, none, some,
  List, [], ◌∷◌, if◌then◌else◌, ◌==◌, leb, ◌⊎◌, inl, inr, Bool-cases,
}
use it_works_os.Kerror.{Kerror, inval, noent}

pub data ResourceType : Type 0 where
  port_type irq_type mmio_type : ResourceType

pub data Resource : Type 0 where
  port : ℕ → ℕ → Resource
  irq : ℕ → ℕ → Resource
  mmio : ℕ → ℕ → Resource

abbrev pub type_of : Resource → ResourceType
type_of (port s e) = port_type
type_of (irq n m) = irq_type
type_of (mmio s e) = mmio_type

-- `res->type == type`
abbrev pub same_type : ResourceType → ResourceType → Bool
same_type port_type port_type = true
same_type irq_type irq_type = true
same_type mmio_type mmio_type = true
same_type _ _ = false

-- The size of the range from `s` to `e` in integers of `w` bits.
unfoldable pub range_size : ℕ → ℕ → ℕ → ℕ
range_size w s e = if leb s e then (e - s + 1) % 2 ^ w else 0

-- The loop, with the number of resources of the type that were seen.
pub resource_from : List Resource → ResourceType → ℕ → ℕ → Kerror ⊎ Resource
resource_from [] type index current = inl noent
resource_from (res ∷ rest) type index current =
    let further =
      resource_from rest type index
        (if same_type (type_of res) type then current + 1 else current) in
    if not (same_type (type_of res) type)
    then further
    else if current == index
    then inr res
    else further

-- The array of `count` resources, none for NULL.
pub resource_get : Option (List Resource) → ResourceType → ℕ → Kerror ⊎ Resource
unfolding resource_from
resource_get none type index = inl inval
resource_get (some resources) type index = resource_from resources type index 0

-- The resources of a type, in their order.
abbrev pub of_type : ResourceType → List Resource → List Resource
of_type type [] = []
of_type type (r ∷ rs) =
    let rest = of_type type rs in if same_type (type_of r) type then r ∷ rest else rest

abbrev pub nth : List Resource → ℕ → Kerror ⊎ Resource
nth [] i = inl noent
nth (r ∷ rs) zero = inr r
nth (r ∷ rs) (suc i) = nth rs i

resource_from_lem :
    (rs : List Resource) (type : ResourceType) (i current index : ℕ)
    → index ≡ current + i
    → resource_from rs type index current ≡ nth (of_type type rs) i
unfolding resource_from
resource_from_lem [] type i current index h = refl
resource_from_lem (r ∷ rs) type zero current index h =
    let at : (current == index) ≡ true = ground arith in
    elim (Bool-cases (same_type (type_of r) type)) [
      | inl e ↦ rw (e, at) refl
      | inr e ↦ rw e (resource_from_lem rs type zero current index h)
    ]
resource_from_lem (r ∷ rs) type (suc i) current index h =
    let past : (current == index) ≡ false = ground arith in
    elim (Bool-cases (same_type (type_of r) type)) [
      | inl e ↦ rw (e, past) (resource_from_lem rs type i (current + 1) index (omega arith))
      | inr e ↦ rw e (resource_from_lem rs type (suc i) current index h)
    ]

-- resource_get returns the resource with the index among those of the type, in their order, and
-- NOENT when there are not so many.
pub resource_get_lem :
    (rs : List Resource) (type : ResourceType) (index : ℕ)
    → resource_get (some rs) type index ≡ nth (of_type type rs) index
unfolding resource_get
resource_get_lem rs type index = resource_from_lem rs type index 0 index (omega arith)
