-- ===== src/Lib.antt =====
-- CullSnap is a desktop program that helps a photographer go through a shoot: it shows previews of
-- RAW files, groups duplicates, scores photos with local models, and mirrors cloud albums. Its Go
-- packages stand under internal/. This library models the parts of them that decide something, as
-- functions on plain data, and proves what makes those parts correct.
--
-- Conventions. A byte, a code point and an unsigned integer is a number (Prim.Native.Nat); what wraps
-- in the source wraps here (`% 4294967296` for uint32, Raw.Int64 for the int64 of cr3.go). A Go
-- function that can fail returns an Outcome: a value, an error (one constructor for each message), or
-- a panic. A file is its contents. Loops that are not over a list take fuel, and a theorem says that
-- the fuel given is enough. Log lines are left out everywhere.
--
-- Files:
--   Base and its children: shared names, tests on numbers, lists, outcomes.
--   Paths: `filepath.Ext`, `strings.ToLower`, `strings.Split` and equality, over names of bytes.
--     Clean has `filepath.Clean`, `Join`, `Abs` and `Base` on Unix, Digits the decimal digits of a
--     number (as much fuel as the number and one more; each round divides it by ten).
--     Unlike `strconv.Atoi`, it does not cut off a number above the largest int.
--   Raw/File: `ReadAt`, byte orders, slices with a capacity.
--   Raw/Tiff: internal/raw/tiff.go. Values is `readTagValue` and `readTagValues`, Ifd is `parseIFD`,
--     Walk is the closure `walkIFDChain`, Extract is `extractTIFFPreview`. Fuel: `max_ifds` rounds and
--     one more, since each round of the walk that goes on counts an IFD. Proofs: Errors, Bounds,
--     Sound, Panics.
--   Raw/Cr3: internal/raw/cr3.go. Fuel: the length of the file and two more, since each round moves
--     the offset by eight bytes at least. A `make` of 2^48 bytes or more panics; the depth of the
--     stack is not modelled. Proofs: Boxes, Sound.
--   Raw/Raf: internal/raw/raf.go.
--   Raw/Preview: internal/raw/preview.go, extensions.go and the end of dcraw.go. The output of the
--     dcraw process and the width that image/jpeg decodes are arguments.
--   Dedupe/Groups: `FindDuplicates` of internal/dedupe/hash.go. The walk, the hash of a file and
--     the distance of two hashes are arguments. Proofs: Sound, Whole, Total.
--   Dedupe/Best: `FindBestPhotos` of internal/dedupe/quality.go; what is measured of an image is an
--     argument. Proofs: Top, Chosen.
--   Dedupe/Dates: `SortGroupsByDate` of internal/dedupe/sorter.go.
--   Cloud/Names: internal/cloudsource/sanitize.go. Cloud/Cache: internal/cloudsource/cache.go,
--     with the proofs on eviction in Leaves and Evict.
--   Vlm/Answers: internal/vlm/parse.go, without encoding/json and the regular expression. Object
--     has the proof on the search for an object, Ranking the tiers and `mapRankingResult`.
--   Vlm/Manager: internal/vlm/manager.go. Each section under the mutex is a function. Threads has
--     the goroutines and their steps; Invariant, Always, Restarts and Stopping have the proofs.
--     Durations are not bounded.
--   Cloud/Mirror: `MirrorAlbum` of internal/cloudsource/mirror.go from the choice of the media on.
--     The order in which the workers end, and the answers of the provider, are arguments. It
--     stores its records in the table of Storage/Meta. Proofs: Converges, Counts.
--   Dedupe/Mover: internal/dedupe/mover.go over a list of files, with the proofs in Safe.
--   Export: internal/export/copier.go over a list of files. The loop of `uniquePath` has two rounds
--     more than there are files; each round that goes on has found another file. Proofs: Fresh,
--     Single, Keeps.
--   Scoring/Clusters: internal/scoring/clustering.go, over an interface for the arithmetic on
--     embeddings. As many rounds are given as there are faces and one more; each merge leaves one
--     active cluster fewer. Search, Merge, Whole and Apart have the proofs.
--   Storage: internal/storage. A table is the list of its rows. Tables has INSERT OR REPLACE and
--     DELETE by a key, Like the operator LIKE; Files, Meta, Recents and Faces have the tables of
--     sqlite.go, Rankings the tables and the query of the rankings, Scores those of scores and
--     what is deleted for a folder, Refines the maps that the tables of Files stand for. Under
--     Faces, Linked, Keeps and Unenforced have the proofs on the links to clusters, with foreign
--     keys and without. SQLite itself is taken to do what these statements say.
--   Updater: internal/updater/updater.go. Versions has isValidSemver, Runs the goroutines.
--   Vlm/Plans: tiers and plans of internal/vlm/hardware.go. Vlm/Models:
--     internal/vlm/model_registry.go and the choice of an entry in internal/app/ai_methods.go.
--   Vlm/Config: the sanitizer and the hash of instructions of internal/vlm/config.go, with the
--     proofs in Lines and Sanitized.
--   Vlm/Archive: internal/vlm/extract.go; what the system answers is an argument. Proof: Inside.
--   App: internal/app, without events. App/Duplicates is `ScanAndDeduplicate` of app.go, which
--     runs the parts of Dedupe one after the other (proofs: Follows, Accounts). App/Engine has
--     the manager and the arithmetic of float64 as the stages use them, an interface.
--     App/Settings is the settings of app.go and config.go (proofs in Loaded). The rest is
--     internal/app/ai_methods.go: Score is `scoreAndSavePhoto` and the workers, in any order in
--     which they take the photos (Sums), People `runFaceClustering` and the bytes of embeddings
--     (Assigned, Saved, Bytes), Describe `runVLMStage4` (Again, Top), Rank `runVLMStage5`
--     (Requests), Analysis `runAIAnalysisPipeline`, which calls all of these (Keeps, Again). The
--     stages use the tables of Storage, and People the clusters of Scoring; a connection of the
--     pool for which foreign keys are off is not modelled there.
--   Tests: small inputs on which the definitions run, and the theorems at concrete arguments.
--
-- Not modelled: errors of the disk, the user interface (frontend/), the calls of operating systems
-- and processes, HTTP and OAuth, what SQLite does beyond the statements modelled, and the
-- arithmetic of images and of neural networks.
pub mod Base
pub mod Paths
pub mod Raw
pub mod Cloud
pub mod Dedupe
pub mod Export
pub mod Scoring
pub mod Storage
pub mod Updater
pub mod Vlm
pub mod App
mod Tests
