-- ===== src/Sbom/Spdx.antt =====
-- hermeto/core/models/sbom.py: the packages and the relationships of an SPDX document.
use cachi.Base.{
  ℕ, String, Bool, true, not, ◌&&◌, ◌||◌, Option, none, some, List, [], ◌∷◌, ◌≡◌, ◌==◌, Eq, Ord,
  ord_by, list_ord, string_eq, string_ord, option_eq, if◌then◌else◌,
}
use cachi.Errors.{Result, ok, err, ◌>>=◌, value_error}
use cachi.Pip.External.{ParsedUrl}

pub record ExternalRef : Type 0 where
  pub reference_locator : String
  pub reference_type : String
  pub reference_category : String

unfoldable pub ref_discrete : Discrete ExternalRef
ref_discrete = hlevel (string_eq.dec)

instance unfoldable pub ref_eq : Eq ExternalRef
unfolding ref_discrete
ref_eq = record { dec = ref_discrete }

abbrev pub ref_key : ExternalRef → List String
ref_key r = r.reference_locator ∷ r.reference_type ∷ r.reference_category ∷ []

pub ref_key_injective : (a b : ExternalRef) → ref_key a ≡ ref_key b → a ≡ b
ref_key_injective a b h = cc

instance unfoldable pub ref_ord : Ord ExternalRef
ref_ord = ord_by ref_key ref_key_injective

-- `annotation_date` is the text of the time stamp.
pub record PackageAnnotation : Type 0 where
  pub annotator : String
  pub annotation_date : String
  pub annotation_type : String
  pub comment : String

-- The key of the sort, and the type behind it, which decides between equal keys.
abbrev pub annotation_key : PackageAnnotation → List String
annotation_key a = a.annotator ∷ a.annotation_date ∷ a.comment ∷ a.annotation_type ∷ []

pub annotation_key_injective :
    (a b : PackageAnnotation) → annotation_key a ≡ annotation_key b → a ≡ b
annotation_key_injective a b h = cc

instance unfoldable pub annotation_ord : Ord PackageAnnotation
annotation_ord = ord_by annotation_key annotation_key_injective

pub record SpdxPackage : Type 0 where
  pub spdx_id : String
  pub name : String
  pub version_info : Option String
  pub external_refs : List ExternalRef
  pub annotations : List PackageAnnotation
  pub download_location : String
  pub source_info : Option String

-- `packageurl.PackageURL`, of which the validation reads three parts. `hash_sum` is the hash of the
-- sum of the hashes of some of them.
pub record PackageUrl : Type 0 where
  pub type : String
  pub namespace : Option String
  pub name : String
  pub version : Option String
  pub qualifiers : List (String × String)
  pub subpath : Option String

pub record PackageUrls : Type 0 where
  pub urlparse : String → Result ParsedUrl
  pub from_string : String → Result PackageUrl
  pub hash_sum : List PackageUrl → ℕ
  pub hash_texts : List String → ℕ

-- `_extract_purls`
unfoldable pub extract_purls : List ExternalRef → List String
extract_purls [] = []
extract_purls (r ∷ refs) =
    let rest = extract_purls refs in
    if r.reference_type == "purl" then r.reference_locator ∷ rest else rest

-- The type, the name and the version of a package URL.
abbrev pub Parts : Type 0
Parts = String × String × Option String

unfoldable pub parts_discrete : Discrete Parts
parts_discrete = hlevel (string_eq.dec)

instance unfoldable pub parts_eq : Eq Parts
unfolding parts_discrete
parts_eq = record { dec = parts_discrete }

abbrev pub parts : PackageUrl → Parts
parts p = (p.type, p.name, p.version)

-- Whether the set of the parts has at most one member.
unfoldable pub one_parts : List PackageUrl → Bool
one_parts [] = true
one_parts (p ∷ []) = true
one_parts (p ∷ q ∷ purls) = let rest = one_parts (q ∷ purls) in parts p == parts q && rest

module _ (lib : PackageUrls) where
  -- `_validate_uri_reference_locator`
  unfoldable pub validate_uri_reference_locator : String → Result String
  validate_uri_reference_locator locator = lib.urlparse locator >>= λ parsed.
      if not (parsed.scheme == "") && (not (parsed.path == "") || not (parsed.netloc == ""))
      then ok locator
      else err value_error

  -- The union of the kinds of references: of a package manager, or of security.
  unfoldable pub validate_ref : ExternalRef → Result ExternalRef
  unfolding validate_uri_reference_locator
  validate_ref r =
      if r.reference_category == "PACKAGE-MANAGER" && r.reference_type == "purl"
        || r.reference_category == "SECURITY" && r.reference_type == "cpe23Type"
      then (validate_uri_reference_locator r.reference_locator >>= λ _. ok r)
      else err value_error

  unfoldable pub validate_refs : List ExternalRef → Result (Unit {0})
  unfolding validate_ref
  validate_refs [] = ok tt
  validate_refs (r ∷ refs) = elim (validate_ref r) [ err e ↦ err e | ok _ ↦ validate_refs refs ]

  -- `_parse_purls`
  unfoldable pub parse_purls : List String → Result (List PackageUrl)
  parse_purls [] = ok []
  parse_purls (purl ∷ purls) =
      let rest = parse_purls purls in
      if purl == "" then rest else lib.from_string purl >>= λ p. rest >>= λ ps. ok (p ∷ ps)

  -- `_purls_validation`
  unfoldable pub purls_validation : List ExternalRef → Result (List ExternalRef)
  unfolding parse_purls extract_purls one_parts
  purls_validation refs = parse_purls (extract_purls refs) >>= λ parsed_purls.
      if one_parts parsed_purls then ok refs else err value_error

  -- `SPDXPackage(…)`, with its validators.
  unfoldable pub make_package : SpdxPackage → Result SpdxPackage
  unfolding validate_refs purls_validation
  make_package p = do
    _ ← validate_refs p.external_refs
    refs ← purls_validation p.external_refs
    ok (record p { external_refs = refs })

  -- The key of a package in `deduplicate_spdx_packages`.
  unfoldable pub purl_key : SpdxPackage → Result ℕ
  unfolding parse_purls extract_purls
  purl_key item = elim (extract_purls item.external_refs) [
    | [] ↦
        ok (
          lib.hash_texts
            ("" ∷ item.name ∷ (elim item.version_info [ none ↦ "" | some v ↦ v ]) ∷ []))
    | p ∷ ps ↦ parse_purls (p ∷ ps) >>= λ purls. ok (lib.hash_sum purls)
  ]
