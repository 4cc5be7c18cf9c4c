-- ===== src/Generic/Models.antt =====
-- hermeto/core/package_managers/generic/models.py: the artifacts of a lockfile and their validators.
use Prim.Native.String.{[] as ε, ◌∷◌ as ◌▹◌}
use cachi.Base.{
  String, ◌<>◌, Char, code, Bool, true, false, not, ◌&&◌, ◌||◌, leb, Option, none, some, List, [],
  ◌∷◌, ◌==◌, string_eq, char_eq, if◌then◌else◌, contains, Eq,
}
use cachi.Base.Dict.{get_item}
use cachi.Base.Text.{cut, partition, endswith}
use cachi.Base.Text.Affixes.{replace_char}
use cachi.Errors.{Error, Result, ok, err, ◌>>=◌, value_error}
use cachi.RootedPath.{PurePath, RootedPath, last_part, join_within_root}
use cachi.Checksum.{ChecksumInfo}

-- `LockfileArtifactMavenAttributes`
pub record MavenAttributes : Type 0 where
  pub repository_url : String
  pub group_id : String
  pub artifact_id : String
  pub version : String
  pub classifier : String
  pub type : String

-- The two classes of artifacts: with a URL, or with attributes for Maven.
pub data Origin : Type 0 where
  url_origin : (download_url : String) → Origin
  maven_origin : (attributes : MavenAttributes) → Origin

-- `LockfileArtifactBase`
pub record LockfileArtifact : Type 0 where
  pub filename : String
  pub checksum : String
  pub origin : Origin

-- A `download_url`: an `AnyUrl` of pydantic, by its text, or a `str`. Python's `==` on an `AnyUrl` and
-- a `str` is false.
pub data CountedUrl : Type 0 where
  any_url : String → CountedUrl
  plain_url : String → CountedUrl

text_discrete : Discrete String
text_discrete = string_eq.dec

unfoldable pub url_discrete : Discrete CountedUrl
unfolding text_discrete
url_discrete = hlevel text_discrete

instance unfoldable pub url_eq : Eq CountedUrl
url_eq = record { dec = url_discrete }

-- `PackageURL(…)`
pub record GenericPurl : Type 0 where
  pub type : String
  pub namespace : Option String
  pub name : String
  pub version : Option String
  pub qualifiers : List (String × String)

-- What comes from elsewhere: the path of a URL by `urlparse`, `urljoin`, `pathlib.Path` with its
-- text, `Path.resolve` and `PackageURL.to_string`.
pub record GenericLib : Type 0 where
  pub url_path : String → Result String
  pub urljoin : String → String → String
  pub path_of : String → PurePath
  pub text_of : PurePath → String
  pub resolve : PurePath → Result PurePath
  pub to_string : GenericPurl → Result String

-- `[a-zA-Z0-9]`
unfoldable pub is_alphanumeric : Char → Bool
is_alphanumeric c =
    (leb b'0' (code c) && leb (code c) b'9')
    || (leb b'a' (code c) && leb (code c) b'z')
    || (leb b'A' (code c) && leb (code c) b'Z')

unfoldable pub all_alphanumeric : String → Bool
unfolding is_alphanumeric
all_alphanumeric ε = true
all_alphanumeric (c ▹ s) = is_alphanumeric c && all_alphanumeric s

-- The same, where a line may end behind it, as `$` allows.
unfoldable pub alphanumeric_line : String → Bool
unfolding is_alphanumeric
alphanumeric_line ε = true
alphanumeric_line (c ▹ ε) = is_alphanumeric c || c == "\n"
alphanumeric_line (c ▹ (d ▹ s)) = is_alphanumeric c && alphanumeric_line (d ▹ s)

abbrev pub starts_alphanumeric : String → Bool
starts_alphanumeric ε = false
starts_alphanumeric (c ▹ s) = is_alphanumeric c

-- `checksum_format`
unfoldable pub checksum_format : String → Result String
unfolding cut all_alphanumeric alphanumeric_line is_alphanumeric
checksum_format value = elim (cut ":" value) [
  | none ↦ err value_error
  | some (algorithm, digest) ↦
      if starts_alphanumeric algorithm
        && all_alphanumeric algorithm
        && (starts_alphanumeric digest && alphanumeric_line digest)
      then ok value
      else err value_error
]

-- `formatted_checksum`
unfoldable pub formatted_checksum : LockfileArtifact → ChecksumInfo
unfolding partition
formatted_checksum a =
    let (algorithm, digest) = partition ":" a.checksum in
    record { algorithm = algorithm; hexdigest = digest }

abbrev pub type_to_extension : List (String × String)
type_to_extension =
    ("pom", "pom")
    ∷ ("jar", "jar")
    ∷ ("maven-plugin", "jar")
    ∷ ("ear", "ear")
    ∷ ("ejb", "jar")
    ∷ ("ejb-client", "jar")
    ∷ ("javadoc", "jar")
    ∷ ("javadoc-source", "jar")
    ∷ ("rar", "rar")
    ∷ ("test-jar", "jar")
    ∷ ("war", "war")
    ∷ []

unfoldable pub extension : MavenAttributes → String
unfolding get_item
extension m = elim (get_item m.type type_to_extension) [ none ↦ m.type | some e ↦ e ]

unfoldable pub filename_from_attributes : MavenAttributes → String
unfolding extension
filename_from_attributes m =
    let filename = m.artifact_id <> ("-" <> m.version) in
    let classified = if m.classifier == "" then filename else filename <> ("-" <> m.classifier) in
    classified <> ("." <> extension m)

module _ (lib : GenericLib) where
  unfoldable pub download_url : Origin → String
  unfolding filename_from_attributes replace_char endswith
  download_url (url_origin url) = url
  download_url (maven_origin m) =
      let url_path =
        replace_char "." "/" m.group_id
        <> ("/"
            <> (m.artifact_id <> ("/" <> (m.version <> ("/" <> filename_from_attributes m))))) in
      let repo_url = m.repository_url in
      lib.urljoin (if endswith repo_url "/" then repo_url else repo_url <> "/") url_path

  unfoldable pub resolve_filename : LockfileArtifact → Result String
  unfolding filename_from_attributes last_part
  resolve_filename a = if not (a.filename == "") then ok a.filename else elim a.origin [
    | url_origin url ↦ lib.url_path url >>= λ path. ok (last_part (lib.path_of path).parts)
    | maven_origin m ↦ ok (filename_from_attributes m)
  ]

  -- An artifact, with the path that its file name is set to.
  abbrev pub Placed : Type 0
  Placed = LockfileArtifact × PurePath

  -- The validators of an artifact.
  unfoldable pub make_artifact : RootedPath → LockfileArtifact → Result Placed
  unfolding checksum_format resolve_filename join_within_root
  make_artifact output_dir a = do
    _ ← checksum_format a.checksum
    filename ← resolve_filename a
    joined ← join_within_root lib.resolve output_dir (lib.path_of filename ∷ [])
    place ← lib.resolve joined.path
    ok (record a { filename = lib.text_of place }, place)

  -- The exception of an artifact: a `ValueError` is kept until those behind it are validated.
  unfoldable pub raised_first : {A : Type 0} → Error → Result A → Error
  raised_first value_error (err e) = e
  raised_first e rest = e

  unfoldable pub with_artifact : Result Placed → Result (List Placed) → Result (List Placed)
  unfolding raised_first
  with_artifact (ok a) rest = rest >>= λ artifacts. ok (a ∷ artifacts)
  with_artifact (err e) rest = err (raised_first e rest)

  unfoldable pub make_artifacts : RootedPath → List LockfileArtifact → Result (List Placed)
  unfolding make_artifact with_artifact
  make_artifacts output_dir [] = ok []
  make_artifacts output_dir (a ∷ artifacts) =
      with_artifact (make_artifact output_dir a) (make_artifacts output_dir artifacts)

  -- What a `Counter` compares: a URL object of an artifact with a URL is no text.
  unfoldable pub counted_url : Origin → CountedUrl
  unfolding download_url
  counted_url (url_origin url) = any_url (download_url (url_origin url))
  counted_url (maven_origin m) = plain_url (download_url (maven_origin m))

  -- Whether something is counted more than once.
  unfoldable pub has_duplicates : {A : Type 0} ⦃e : Eq A⦄ → List A → Bool
  has_duplicates [] = false
  has_duplicates (x ∷ l) = contains l x || has_duplicates l

  unfoldable pub urls_of : List Placed → List CountedUrl
  unfolding counted_url
  urls_of [] = []
  urls_of ((a, place) ∷ artifacts) = counted_url a.origin ∷ urls_of artifacts

  unfoldable pub filenames_of : List Placed → List String
  filenames_of [] = []
  filenames_of ((a, place) ∷ artifacts) = a.filename ∷ filenames_of artifacts

  -- `no_artifact_conflicts`
  unfoldable pub no_artifact_conflicts : List Placed → Result (List Placed)
  unfolding has_duplicates urls_of filenames_of
  no_artifact_conflicts artifacts =
      if has_duplicates (urls_of artifacts) || has_duplicates (filenames_of artifacts)
      then err value_error
      else ok artifacts

  -- `GenericLockfileV1`
  unfoldable pub make_lockfile : RootedPath → List LockfileArtifact → Result (List Placed)
  unfolding make_artifacts no_artifact_conflicts
  make_lockfile output_dir artifacts =
      make_artifacts output_dir artifacts >>= λ placed. no_artifact_conflicts placed
