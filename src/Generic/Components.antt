-- ===== src/Generic/Components.antt =====
-- hermeto/core/package_managers/generic/models.py: the components of artifacts.
use cachi.Base.{String, Option, none, some, List, [], ◌∷◌, ◌==◌, string_eq, char_eq, if◌then◌else◌}
use cachi.Errors.{Result, ok, ◌>>=◌}
use cachi.RootedPath.{PurePath, last_part}
use cachi.Sbom.Component.{ExternalReference, Component, file, library, validate}
use cachi.Generic.Models.{
  MavenAttributes, url_origin, maven_origin, LockfileArtifact, GenericLib, Placed, download_url,
}

module _ (lib : GenericLib) where
  abbrev pub distribution : String → Option (List ExternalReference)
  distribution url = some (record { url = url; type = "distribution"; comment = none } ∷ [])

  -- `LockfileArtifactUrl.get_sbom_component`
  unfoldable pub url_component : String → LockfileArtifact → PurePath → String → Result Component
  unfolding last_part validate
  url_component app a place url =
      let name = last_part place.parts in
      lib.to_string (record {
        type = "generic";
        namespace = none;
        name = name;
        version = none;
        qualifiers = ("download_url", url) ∷ ("checksum", a.checksum) ∷ [];
      })
      >>= λ purl. ok (
          validate app (record {
            bom_ref = "";
            name = name;
            purl = purl;
            version = none;
            properties = [];
            type = file;
            external_references = distribution url;
            pedigree = none;
          }))

  -- `LockfileArtifactMaven.get_sbom_component`
  unfoldable pub maven_component : String → LockfileArtifact → MavenAttributes → Result Component
  unfolding download_url validate
  maven_component app a m =
      let classified : List (String × String) =
        if m.classifier == "" then [] else ("classifier", m.classifier) ∷ [] in
      lib.to_string (record {
        type = "maven";
        namespace = some m.group_id;
        name = m.artifact_id;
        version = some m.version;
        qualifiers =
            ("type", m.type)
            ∷ ("repository_url", m.repository_url)
            ∷ ("checksum", a.checksum)
            ∷ classified;
      })
      >>= λ purl. ok (
          validate app (record {
            bom_ref = "";
            name = m.artifact_id;
            purl = purl;
            version = some m.version;
            properties = [];
            type = library;
            external_references = distribution (download_url lib (maven_origin m));
            pedigree = none;
          }))

  unfoldable pub get_sbom_component : String → Placed lib → Result Component
  unfolding url_component maven_component
  get_sbom_component app (a, place) = elim a.origin [
    | url_origin url ↦ url_component app a place url
    | maven_origin m ↦ maven_component app a m
  ]
