-- ===== src/Tests/Fetch.antt =====
-- Runs and an instance for `fetch_gomod_source`.
use cachi.Base.{
  String, ◌<>◌, Bool, true, false, none, some, List, [], ◌∷◌, ◌≡◌, refl, string_eq, char_eq, nat_eq,
  bool_eq, string_ord, ◌==◌, if◌then◌else◌,
}
use cachi.Base.Members.{AllMeet}
use cachi.Errors.{ok, err, package_rejected}
use cachi.RootedPath.{last_part}
use cachi.Properties.{Property, missing_hash_in_file, found_by}
use cachi.Sbom.Component.{Component, library}
use cachi.Output.{EnvironmentVariable, RequestOutput}
use cachi.Input.Package.{gomod_details, Mode, strict}
use cachi.Input.Request.{Request}
use cachi.Gomod.Surroundings.{Surroundings}
use cachi.Gomod.Fetch.{fetch_gomod_source}
use cachi.Gomod.Unchanged.{Present, AllUnchanged}
use cachi.Gomod.Pristine.{paths_of, own_annotations, fetch_gomod_source-Unchanged}
use cachi.Tests.Tags.{semantic, tags, head}
use cachi.Tests.Gomod.{numbered, no_install, installed}
use cachi.Tests.Resolve.{app_dir, plain_resolve, project, uuid}

-- A tree by what git shows of it where what is not tracked is marked.
record Git : Type 0 where
  shown : String
  marked : Bool

-- A project without packages, and what git shows of its vendor directory.
abbrev surroundings : String → Surroundings numbered
surroundings difference = record {
  installed = installed;
  install = no_install;
  project = λ go. record (project uuid) {
    is_dir = λ path. last_part path.parts == "vendor";
    lines_of = λ path.
        if last_part path.parts == "modules.txt"
        then some ("# ex.com/uuid v1.3.0" ∷ "## explicit" ∷ "ex.com/uuid" ∷ [])
        else none;
    list_deps = λ pattern env path. ok [];
  };
  resolve = plain_resolve;
  exists = λ path. true;
  go_mod_lines = λ path. "go 1.21" ∷ [];
  go_env = λ go path. ok "";
  work_edit = λ go path. ok [];
  tmp_dir = "/tmp/cache";
  mkdir = λ path. ok tt;
  copytree = λ ignored from to. ok tt;
  proxy_url = "";
  environment_variables = [];
  Tree = Git;
  tree = record { shown = ""; marked = false };
  vendored = λ go workspace path t. record t { shown = difference };
  git_add = λ dir t. ok (record t { marked = true });
  git_diff = λ dir path t. ok (if t.marked then t.shown else "");
  git_reset = λ dir t. ok (record t { marked = false });
  origin = ok ("ex.com", "/a.git");
  semver = semantic;
  commit = ok (head tags []);
  fetch_tags = ok tt;
  to_string = λ purl. ok ("pkg:golang/" <> purl.name);
}

abbrev request : Mode → Request
request mode = record {
  source_dir = app_dir;
  output_dir = app_dir;
  packages =
      record { path = record { absolute = false; parts = [] }; details = gomod_details } ∷ [];
  flags = [];
  mode = mode;
}

abbrev component_of : String → String → List Property → Component
component_of name version properties = record {
  bom_ref = "pkg:golang/" <> name;
  name = name;
  purl = "pkg:golang/" <> name;
  version = some version;
  properties = properties;
  type = library;
  external_references = none;
  pedigree = none;
}

abbrev by_hermeto : Property
by_hermeto = record { name = found_by; value = "hermeto" }

abbrev variable_of : String → String → EnvironmentVariable
variable_of name value = record { name = name; value = value; kind = none }

abbrev output : RequestOutput
output = record {
  annotations =
      record {
        subjects = "pkg:golang/ex.com/a" ∷ "pkg:golang/ex.com/uuid" ∷ [];
        annotator = ("organization", ("name", "red hat") ∷ []) ∷ [];
        timestamp = "now";
        text = "hermeto:backend:gomod";
      }
      ∷ [];
  components =
      component_of "ex.com/a" "v1.2.0" (by_hermeto ∷ [])
      ∷ component_of "ex.com/uuid" "v1.3.0"
          (record { name = missing_hash_in_file; value = "go.sum" } ∷ by_hermeto ∷ [])
      ∷ [];
  build_config = record {
    environment_variables =
        variable_of "GOCACHE" "${output_dir}/deps/gomod"
        ∷ variable_of "GOMODCACHE" "${output_dir}/deps/gomod/pkg/mod"
        ∷ variable_of "GOPATH" "${output_dir}/deps/gomod"
        ∷ variable_of "GOPROXY" "file://${GOMODCACHE}/cache/download"
        ∷ [];
    project_files = [];
    options = none;
  };
}

fetched : fetch_gomod_source numbered (surroundings "") "hermeto" "now" (request strict) ≡ ok output
unfolding fetch_gomod_source string_eq char_eq nat_eq bool_eq string_ord cachi.Base.Text.join
    cachi.Gomod.Models.id_eq cachi.Gomod.Vendor.parse_module_line cachi.Properties.key_ord
    cachi.Properties.enum_value cachi.Sbom.Component.validate cachi.Base.Sort.sort_by
    cachi.Properties.to_properties cachi.Properties.property_eq cachi.Properties.property_discrete
fetched = refl

pristine_example :
    AllMeet (Present numbered (surroundings "") (request strict)) (paths_of (request strict))
    × AllUnchanged numbered
        (surroundings "")
        (request strict)
        (paths_of (request strict))
        (surroundings "").tree
    × (output.annotations ≡ own_annotations "hermeto" "now" output.components)
pristine_example =
    fetch_gomod_source-Unchanged numbered (surroundings "") "hermeto" "now" (request strict) refl
      fetched

refused :
    fetch_gomod_source numbered
      (surroundings "M vendor/modules.txt")
      "hermeto"
      "now"
      (request strict)
    ≡ err package_rejected
unfolding fetch_gomod_source string_eq char_eq nat_eq bool_eq string_ord cachi.Base.Text.join
    cachi.Gomod.Models.id_eq cachi.Gomod.Vendor.parse_module_line
refused = refl
