-- ===== src/Lib.antt =====
-- The core of etherpad-go: changesets on texts, the operations on spreadsheets, the access to pads, and
-- the updater of the server.
--
-- A pad's text changes by changesets, texts `Z:<old length><change><ops>$<bank>`. The ops insert
-- characters of the bank, delete and keep characters of the text. A changeset is made (`MakeSplice`),
-- checked (`CheckRep`), applied (`ApplyToText`), and composed with a later one (`Compose`). A sheet
-- changes by ops on cells, rows, columns and tabs, which the server orders: an op that was made for an
-- older revision is moved past the ops logged since. The updater polls for releases, decides by its
-- policy and its window when to apply one, downloads and verifies it, swaps the binary, and
-- rolls back an update whose process is never healthy.
--
-- Which file models which part of lib/:
--   Num             utils/stringUtils.go: numbers to base 36
--   Op              changeset/Op.go, and `DeserializeOps` of changeset/changeset.go
--   Assembler       changeset/OpAssembler.go, StringAssembler.go; Assembler/Merging and
--                   Assembler/Smart are MergingOpAssembler.go and SmartOpAssembler.go
--   StringIterator  changeset/StringIterator.go
--   Pool            apool/APool.go, apool/Attribute.go
--   Attribs         changeset/attributes.go, AttributeMap.go, `ComposeAttributes`
--   Changeset       `Pack`, `Unpack`, `Identity`, and the rune functions of utils/runeUtils.go
--   Slicer, Zip     `SlicerZipperFunc`, `ApplyZip`
--   Compose         `Compose`, `ApplyToAttribution`
--   Apply           `ApplyToText`, `ApplyToAText`; Apply/Runs is the meaning of ops as a relation
--   Splice          `OpsFromText`, `MakeSplice`, `MakeAttribution`, `MakeAText`
--   CheckRep        `CheckRep`, `OldLen`
--   WellFormed      changeset/validate.go: `ValidateWellFormed`
--   Takes           a changeset as a text, from `Unpack` to `Pack`: `Compose` and `MakeSplice`
--   Sheet           sheet/: Cell, Style, Ops, Props, Validate, Grid, Transform, Workbook, Apply and
--                   Document are cell.go, style.go, op.go (three modules), sheet.go, transform.go,
--                   sheet.go, apply.go and reconcile.go
--   Strings         functions of Go's package strings
--   Access          pad/SecurityManager.go, with parts of pad/webaccess.go, pad/SessionManager.go,
--                   pad/readOnlyManager.go and utils/padUtils.go
--   RateLimit       ws/ratelimiter/inmemory.go
--   Updater         updater/: Types, Window, Policy, Schedule are types.go, window.go, policy.go (with
--                   version.go) and scheduler.go; Release is versionchecker.go and refsafety.go;
--                   State, Checking, Applying, Boot are updater.go (with state.go and preflight.go);
--                   Assets and Executor are executor.go (with trustedkeys.go). Runs is the step
--                   relation of the handlers
-- Prelude holds what the others share, Result the errors, Examples the concrete runs.
--
-- How the code is written here. A Go `(value, error)` is a `Result`; a run-time panic is its `panic`,
-- and `stuck` is no Go value but the end of the model's fuel. Methods on a pointer take the state and
-- return it. Pad texts are lists of runes, sheet strings lists of bytes. A map is an association list
-- and a loop over a map reads it from its head, so what Go leaves open about the order is one order
-- here. The sums and differences of coordinates in sheet/ and of `CheckRep` are those of a 64-bit
-- `int`, which wraps around (`wrap` in Prelude/Int), and a number that is read is below `int_limit`.
-- Elsewhere Go's `int` is an unbounded ℕ, or ℤ where the code can go below 0: the lengths of texts and
-- the sums of op lengths there are taken not to overflow. A regular expression is written out as the function that matches it. `math.Min` on two lengths is
-- `min`, which is exact below 2^53.
--
-- The updater's times are whole seconds of the Unix clock. Its handlers hold a lock, so a handler is
-- one step, which reads the clock once; `runApply` does not, and is cut where it waits for the
-- drain and for the executor. `onApplyTimer`, `ApplyNow` and `rollback`, which let go of the lock
-- in between, and `runApply` up to the drain, are one step too. A file is what stands at a path,
-- and a rename either works or is refused. What stores, hooks, GitHub, the clocks of time zones and the
-- packages semver, sha256, ed25519 and base64 answer is a parameter.
--
-- Fuel: `DeserializeOps` gets the length of its text, since a match takes at least one rune, and
-- `ApplyZip` one round for each op and one more, since a round of the callbacks uses up an op.
--
-- Not modelled: `Follow`, `Inverse`, the line mutators and the builder of changeset/, the snapshots
-- and the manager of the sheets, the updater's lock file and drain, the authentication of
-- pad/webaccess.go, and everything with input and output: pads over a data store, websockets, HTTP,
-- import and export, plugins, settings and the user interface.
pub mod Prelude
pub mod Num
pub mod Result
pub mod Op
pub mod Assembler
pub mod StringIterator
pub mod Pool
pub mod Changeset
pub mod Attribs
pub mod Slicer
pub mod Zip
pub mod Compose
pub mod Apply
pub mod Splice
pub mod Takes
pub mod CheckRep
pub mod WellFormed
pub mod Sheet
pub mod Strings
pub mod Access
pub mod RateLimit
pub mod Updater
pub mod Examples
