-- ===== src/Tests/Generic.antt =====
-- Runs and instances for the generic package manager.
use cachi.Base.{String, true, false, List, [], ◌∷◌, ◌≡◌, refl, string_eq, char_eq, bool_eq}
use cachi.Base.Text.{join}
use cachi.Errors.{ok}
use cachi.RootedPath.{RootedPath}
use cachi.Generic.Models.{
  LockfileArtifact, GenericLib, url_eq, url_discrete, maven_origin, url_origin, Placed,
  make_lockfile, urls_of, filenames_of, filename_from_attributes,
}
use cachi.Generic.Placed.{NoRepeat, AllPlaced, Settles, make_lockfile-AllPlaced}

abbrev lib : GenericLib
lib = record {
  url_path = λ s. ok s;
  urljoin = λ a b. b;
  path_of = λ s. record { absolute = false; parts = s ∷ [] };
  text_of = λ p. join "/" p.parts;
  resolve = λ p. ok p;
  to_string = λ p. ok p.name;
}

abbrev deps : RootedPath
deps = record {
  root = record { absolute = true; parts = "deps" ∷ [] };
  path = record { absolute = true; parts = "deps" ∷ [] };
}

abbrev artifact : String → String → LockfileArtifact
artifact filename url = record { filename = filename; checksum = "md5:0a"; origin = url_origin url }

abbrev placed : String → String → String → Placed lib
placed filename name url =
    (artifact name url, record { absolute = true; parts = "deps" ∷ filename ∷ [] })

jar :
    filename_from_attributes (record {
      repository_url = "r";
      group_id = "org.x";
      artifact_id = "a";
      version = "1";
      classifier = "sources";
      type = "ejb";
    })
    ≡ "a-1-sources.jar"
unfolding filename_from_attributes string_eq
jar = refl

abbrev artifacts : List LockfileArtifact
artifacts = artifact "f" "http://a" ∷ artifact "g" "http://b" ∷ []

abbrev placed_artifacts : List (Placed lib)
placed_artifacts = placed "f" "deps/f" "http://a" ∷ placed "g" "deps/g" "http://b" ∷ []

valid : make_lockfile lib deps artifacts ≡ ok placed_artifacts
unfolding make_lockfile char_eq string_eq bool_eq join url_eq url_discrete
valid = refl

-- An artifact of Maven and one with a URL are accepted with one URL.
abbrev maven : LockfileArtifact
maven = record {
  filename = "f";
  checksum = "md5:0a";
  origin = maven_origin (record {
    repository_url = "r";
    group_id = "org";
    artifact_id = "a";
    version = "1";
    classifier = "";
    type = "jar";
  });
}

one_url :
    make_lockfile lib deps (maven ∷ artifact "g" "org/a/1/a-1.jar" ∷ [])
    ≡ ok (
        (
          record maven { filename = "deps/f" },
          record { absolute = true; parts = "deps" ∷ "f" ∷ [] },
        )
        ∷ placed "g" "deps/g" "org/a/1/a-1.jar"
        ∷ [])
unfolding make_lockfile char_eq string_eq bool_eq join url_eq url_discrete
one_url = refl

settles : Settles lib
settles p q h = refl

placed_example :
    AllPlaced lib deps.root artifacts placed_artifacts
    × NoRepeat lib (urls_of lib placed_artifacts)
    × NoRepeat lib (filenames_of lib placed_artifacts)
placed_example = make_lockfile-AllPlaced lib settles deps artifacts valid
