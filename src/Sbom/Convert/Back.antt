-- ===== src/Sbom/Convert/Back.antt =====
-- hermeto/core/models/sbom.py: what `to_cyclonedx` makes of the package of a component.
use mathlib.Core.List.{map}
use Prim.Native.String.{[] as ε, ◌∷◌ as ◌▹◌}
use cachi.Base.{
  String, ◌<>◌, Char, true, false, Option, none, some, List, [], ◌∷◌, ◌≡◌, refl, ap, ◌∙◌, ◌==◌,
  ==_refl, string_eq, arith, contains, ◌++◌, false, inl, inr, Bool-cases, append_assoc, subst,
}
use text.Mathlib.TextLemmas.{cons-append, cons-ne-nil}
use cachi.Base.Text.{endswith, has_char, join}
use cachi.Base.Text.Parts.{AllWithout, split_on-join}
use cachi.Base.Members.{AllMeet, Among}
use cachi.Errors.{Error, ok, err, value_error, Result-cases}
use cachi.Properties.{PropertyEnum, Property, enum_value}
use cachi.Sbom.Component.{ExternalReference, Component, library, validate}
use cachi.Sbom.Document.{Annotation}
use cachi.Sbom.Spdx.{SpdxPackage, PackageAnnotation, extract_purls}
use cachi.Sbom.Convert.{
  Codec, source_infos, or_none, subject_annotations, property_annotation,
  generate_package_annotations, package_of, purl_ref, base_annotation,
}
use cachi.Sbom.Convert.Cyclonedx.{
  enum_of_value, read_annotation, read_annotations, proxy_reference, references_of, component_of,
  package_components,
}

-- What the conversions rely on: `json` reads what it has written, and the names of the properties
-- are told apart.
pub record Readable (app : String) (codec : Codec) : Type 0 where
  pub json : (name value : String) → codec.loads (codec.dumps name value) ≡ ok (name, value)
  pub names : (n : PropertyEnum) → enum_of_value app (enum_value app n) ≡ ok n
  pub tool : endswith ("Tool: " <> (app <> ":jsonencoded")) ":jsonencoded" ≡ true

read_json :
    (app : String) (codec : Codec) (a : PackageAnnotation) (name value : String) (n : PropertyEnum)
    → endswith a.annotator ":jsonencoded" ≡ true
    → codec.loads a.comment ≡ ok (name, value)
    → enum_of_value app name ≡ ok n
    → read_annotation app codec a ≡ ok (record { name = n; value = value })
unfolding read_annotation
read_json app codec a name value n h j k = rw (h) (rw (j) (rw (k) refl))

-- URLs that the text of a source info can hold: not empty, and with no semicolon.
abbrev pub AllUrls : List String → Type 0
AllUrls [] = Unit
AllUrls (u ∷ us) = ((u == "") ≡ false) × (has_char ";" u ≡ false) × AllUrls us

AllUrls-AllWithout : (us : List String) → AllUrls us → AllWithout ";" us
AllUrls-AllWithout [] h = tt
AllUrls-AllWithout (u ∷ us) h = (h.1, AllUrls-AllWithout us h.2)

-- The references of a component that are for a proxy, as the conversion writes them again.
unfoldable pub proxies : List String → Option (List ExternalReference)
proxies [] = none
proxies (u ∷ us) = some (map proxy_reference (u ∷ us))

cons_not_empty : (c : Char) (s : String) → (c ▹ s == "") ≡ false
cons_not_empty c s = ground (arith, cons-ne-nil c s)

join_not_empty :
    (u : String) (us : List String) → (u == "") ≡ false → (join ";" (u ∷ us) == "") ≡ false
unfolding join
join_not_empty u [] h = h
join_not_empty ε (v ∷ us) h = absurd (ground (arith, ==_refl {A = String} ""))
join_not_empty (c ▹ u) (v ∷ us) h =
    rw (cons-append c u (";" <> join ";" (v ∷ us))) (cons_not_empty c _)

or_none-join :
    (u : String) (us : List String)
    → (u == "") ≡ false
    → or_none (join ";" (u ∷ us)) ≡ some (join ";" (u ∷ us))
or_none-join u us h = rw (join_not_empty u us h) refl

references-or_none :
    (us : List String) → AllUrls us → references_of (or_none (join ";" us)) ≡ proxies us
unfolding proxies
references-or_none [] h = unfold join string_eq in refl
references-or_none (u ∷ us) h =
    ap references_of (or_none-join u us h.0)
    ∙ ap (λ (l : List String). some (map proxy_reference l))
        (split_on-join ";" u us (AllUrls-AllWithout (u ∷ us) h))

purl_of : (u : String) → extract_purls (purl_ref u ∷ []) ≡ u ∷ []
unfolding extract_purls string_eq
purl_of u = refl

module _ (app now : String) (codec : Codec) where
  read-property_annotation :
      Readable app codec
      → (p : Property) → read_annotation app codec (property_annotation app now codec p) ≡ ok p
  unfolding property_annotation base_annotation
  read-property_annotation laws p =
      read_json app codec _ (enum_value app p.name) p.value p.name laws.tool
        (laws.json (enum_value app p.name) p.value) (laws.names p.name)

  read-properties :
      Readable app codec
      → (ps : List Property)
      → read_annotations app codec (map (property_annotation app now codec) ps) ≡ ok ps
  unfolding read_annotations
  read-properties laws [] = refl
  read-properties laws (p ∷ ps) = rw (read-property_annotation laws p, read-properties laws ps) refl

  components_of :
      (p : SpdxPackage) (ps : List Property) (u : String)
      → read_annotations app codec p.annotations ≡ ok ps
      → extract_purls p.external_refs ≡ u ∷ []
      → package_components app codec p ≡ ok (component_of app codec p ps u ∷ [])
  unfolding package_components
  components_of p ps u h k = rw (h) (rw (k) refl)

  read_error :
      (a : PackageAnnotation) (annotations : List PackageAnnotation) (e : Error)
      → read_annotation app codec a ≡ err e
      → read_annotations app codec (a ∷ annotations) ≡ err e
  unfolding read_annotations
  read_error a annotations e h = rw (h) refl

  components_error :
      (p : SpdxPackage) (e : Error)
      → read_annotations app codec p.annotations ≡ err e
      → package_components app codec p ≡ err e
  unfolding package_components
  components_error p e h = rw (h) refl

  -- An annotation that a component has, and whose text is no JSON, stops the reading.
  subject_error :
      (before : List PackageAnnotation) (a : Annotation) (after : List PackageAnnotation)
      → endswith ("Tool: " <> (app <> ":jsonencoded")) ":jsonencoded" ≡ true
      → codec.loads a.text ≡ err value_error
      → (e : Error) × (read_annotations app codec
            (before ++ base_annotation app now codec a.text ∷ after)
          ≡ err e)
  unfolding base_annotation read_annotation read_annotations
  subject_error [] a after h j = (
    value_error,
    read_error (base_annotation app now codec a.text) after value_error (rw (h) (rw (j) refl)),
  )
  subject_error (b ∷ before) a after h j = elim (Result-cases (read_annotation app codec b)) [
    | inl (e, k) ↦ (e, read_error b _ e k)
    | inr (p, k) ↦
        (let (e, rest) = subject_error before a after h j in
          (e, rw (k, read_annotations) (rw (rest) refl)))
  ]

  -- No annotation of the document names the component.
  abbrev pub Unnamed : List Annotation → Component → Type 0
  Unnamed annotations c =
      AllMeet (λ (a : Annotation). contains a.subjects c.bom_ref ≡ false) annotations

  subject_annotations-Unnamed :
      (annotations : List Annotation) (c : Component)
      → Unnamed annotations c
      → subject_annotations app now codec annotations c.bom_ref ≡ []
  unfolding subject_annotations
  subject_annotations-Unnamed [] c h = refl
  subject_annotations-Unnamed (a ∷ annotations) c h =
      rw (h.0) (subject_annotations-Unnamed annotations c h.1)

  named_annotation :
      (a : Annotation) (annotations : List Annotation) (bom_ref : String)
      → Among a annotations
      → contains a.subjects bom_ref ≡ true
      → (before : List PackageAnnotation) × ((after : List PackageAnnotation) × (subject_annotations
              app now codec annotations bom_ref
            ≡ before ++ base_annotation app now codec a.text ∷ after))
  unfolding subject_annotations
  named_annotation a [] bom_ref m h = absurd m
  named_annotation a (b ∷ annotations) bom_ref (inl e) h = (
    [],
    (
      subject_annotations app now codec annotations bom_ref,
      subst
          (λ (d : Annotation).
            subject_annotations app now codec (d ∷ annotations) bom_ref
            ≡ base_annotation app now codec a.text
              ∷ subject_annotations app now codec annotations bom_ref)
          e (rw (h) refl),
    ),
  )
  named_annotation a (b ∷ annotations) bom_ref (inr m) h =
      let (before, (after, e)) = named_annotation a annotations bom_ref m h in
      elim (Bool-cases (contains b.subjects bom_ref)) [
        | inl t ↦ (base_annotation app now codec b.text ∷ before, (after, rw (t) (rw (e) refl)))
        | inr f ↦ (before, (after, rw (f) (rw (e) refl)))
      ]

  pub package_components-package_of :
      Readable app codec
      → (annotations : List Annotation) (c : Component) → Unnamed annotations c
      → AllUrls (source_infos c)
      → package_components app codec (package_of app now codec annotations c)
        ≡ ok (
            validate app (record c {
              type = library;
              pedigree = none;
              external_references = proxies (source_infos c);
            })
            ∷ [])
  unfolding package_of component_of generate_package_annotations
  package_components-package_of laws annotations c unnamed h =
      components_of (package_of app now codec annotations c) c.properties c.purl
        (ap
            (λ (l : List PackageAnnotation).
              read_annotations app codec
                (l ++ map (property_annotation app now codec) c.properties))
            (subject_annotations-Unnamed annotations c unnamed)
          ∙ read-properties laws c.properties)
        (purl_of c.purl)
      ∙ ap
          (λ (refs : Option (List ExternalReference)). ok (
            validate app (record c { type = library; pedigree = none; external_references = refs })
            ∷ []))
          (references-or_none (source_infos c) h)

  -- Any annotation of the document that names the component, and whose text is no JSON, makes an
  -- error of the conversion back.
  pub package_components-annotation :
      (a : Annotation) (annotations : List Annotation) (c : Component)
      → Readable app codec
      → Among a annotations
      → contains a.subjects c.bom_ref ≡ true
      → codec.loads a.text ≡ err value_error
      → (e : Error) × (package_components app codec (package_of app now codec annotations c)
          ≡ err e)
  unfolding package_of generate_package_annotations
  package_components-annotation a annotations c laws m h j =
      let properties = map (property_annotation app now codec) c.properties in
      let (before, (after, split)) = named_annotation a annotations c.bom_ref m h in
      let (e, raised) = subject_error before a (after ++ properties) laws.tool j in
      (
        e,
        components_error (package_of app now codec annotations c) e (
            ap (λ (l : List PackageAnnotation). read_annotations app codec (l ++ properties)) split
            ∙ ap (read_annotations app codec)
                (append_assoc before (base_annotation app now codec a.text ∷ after) properties)
            ∙ raised),
      )
