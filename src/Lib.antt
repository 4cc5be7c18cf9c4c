-- ===== src/Lib.antt =====
-- Hermeto fetches the dependencies of a project and describes them in an SBOM. This library models
-- the data that its package managers share, the documents that it writes, the reading of pip's
-- requirements files, the choice of pip's distributions, the npm and the generic package manager,
-- the packages of Yarn 1, and the modules and packages of Go.
--
-- The parts, and the files that model them:
--   Base        Python's `==`, `<`, `sorted`, `groupby`, `set`, `dict` and the methods of `str`.
--   Errors      hermeto/core/errors.py: the exceptions, by class.
--   Properties  hermeto/core/models/property_semantics.py: `Property` and `PropertySet`.
--   Sbom        hermeto/core/models/sbom.py: Component has `Component` and
--               `merge_component_properties`, Document has `Sbom` and its `__add__`, Spdx the packages
--               of SPDX documents, Packages `deduplicate_spdx_packages`, Relations `SPDXSbom` with its
--               root and its `__add__`, Convert `to_spdx`, and Convert/Cyclonedx `to_cyclonedx`.
--   RootedPath  hermeto/core/rooted_path.py: paths that stay below a root.
--   Validators  hermeto/core/models/validators.py: `unique`, `unique_sorted`, `check_sane_relpath`.
--   Checksum    hermeto/core/checksum.py: integrity values and the verification of files.
--   Input       hermeto/core/models/input.py: Filters, Options, Package and Request hold the models
--               with their validators.
--   Output      hermeto/core/models/output.py and `_resolve_packages` of hermeto/core/resolver.py.
--   BinaryFilters  hermeto/core/binary_filters.py, and the architecture filter of
--               hermeto/core/package_managers/rpm/binary_filters.py.
--   Pip         hermeto/core/package_managers/pip/requirements.py: Lines reads the lines, Options
--               splits them, FromLine makes a requirement of one, Requirement holds it, Global reads
--               the global options, and Validate has the two validations. Of
--               package_distributions.py, beside it, Wheels has the filter of wheels, and
--               Distributions the choice of the files that are downloaded.
--   Npm         hermeto/core/package_managers/npm.py: Urls has the kinds of URLs, Lock the lockfile,
--               Purls the package URLs and the components, Downloads the plan of the downloads and
--               their verification, Update the new lockfile, and Fetch `fetch_npm_source`.
--   YarnClassic hermeto/core/package_managers/yarn_classic: Search has the search for dependencies of
--               utils.py, Mirror its names of tarballs, Packages the factory of resolver.py, and
--               Collisions the check and the components of main.py.
--   Gomod       hermeto/core/package_managers/gomod.py: Models has what the go command says, Vendor
--               reads vendor/modules.txt, Directives go.mod, Toolchain selects a toolchain, Modules
--               and Packages make what the SBOM describes, Paths has the texts of paths, Tags is the
--               `ModuleVersionResolver`, with its texts in Majors, Resolve has `_resolve_gomod`, whose
--               commands Project has and whose workspaces Workspace, and Fetch has
--               `fetch_gomod_source`, on what Surroundings has. The working tree and the index of git
--               are a state that the vendoring and git change; the files that are read are not.
--   Generic     hermeto/core/package_managers/generic: Models has the artifacts and their validators,
--               Components their components, Main `fetch_generic_source`.
--   Tests       runs on concrete data, and instances of the theorems.
--
-- How they interact: a request (Input) is validated with Validators and RootedPath. A package manager
-- such as npm returns an output (Output), which holds components (Sbom) with properties (Properties).
-- Outputs are added, and the document of the sum is an `Sbom`, which may become an SPDX document.
--
-- The conventions: an operation carries the name of the function, without a leading underscore. What
-- raises is a `Result`, with the class of the exception and no message. A `frozenset` or `set` is
-- the strictly ascending list of its members, and a `list` made of a set is in that order; only the
-- relationships of a sum of SPDX documents stand in the order of their first occurrences, and the
-- checksums of a distribution, the modules of a go.sum and the toolchains, of which no order counts,
-- are lists of the members. A `dict` is the list of its items in the order of their insertions, and
-- a dictionary that is read from JSON is the record of the keys that are read. `APP_NAME` is the
-- parameter `app`, the clock is `now`.
-- `str.lower` changes the letters of ASCII only. A path is a flag and its parts. A package of the
-- npm lockfile shares its dictionary with the lockfile, so an update of it is one of the lockfile.
--
-- What is not under the repository's control is a parameter: `Path.resolve`, `Path.is_dir` and the
-- files, `hashlib`, base64, `json`, `string.Template`, `urlparse`, `unquote`, `fnmatch`, YAML, git,
-- the network, the go command, and the libraries `packaging`, `packageurl`, `semver` and `pyarn`.
--
-- The fuel: the loop that hashes a file has as many rounds as the file has bytes, which is enough,
-- since each chunk but the last has a byte. The search through a yarn.lock has fuel for its rounds;
-- some fuel is enough, since a round visits a new package, or takes one that is visited from the
-- queue and puts none there. A number is written in as many rounds as the number and one more, which
-- is enough, since each round divides it by ten. All other loops are recursions on lists.
--
-- Not modelled: log lines and messages, hooks of pydantic for printing, the package managers other
-- than those above, of pip the runs of the downloads and the files of a project, of Yarn 1 the runs of
-- yarn and the globs of workspaces, of Go the runs of the go command with their retries, the search
-- for toolchains and their installation, and the removal of the cache, of npm the making of
-- directories, and the command line. The paths of a workspace are computed when its go.work is read,
-- where the code computes them at their first use. The root of an SPDX document is computed at each
-- use, where the code keeps the first, also in a sum.
pub mod Base
pub mod Errors
pub mod Properties
pub mod Sbom
pub mod RootedPath
pub mod Validators
pub mod Checksum
pub mod Input
pub mod Output
pub mod BinaryFilters
pub mod Pip
pub mod YarnClassic
pub mod Npm
pub mod Generic
pub mod Gomod
pub mod Tests
