-- ===== src/Lib.antt =====
-- A verification library for choix, a local photo and video culling tool.
--
-- The program scans a folder, reads metadata, builds thumbnails, computes embeddings, groups files
-- that look alike and were taken together into clusters, and lets the user pick or reject files;
-- picked files are copied to a folder of their own. It keeps its state in a SQLite database.
--
-- Parts and files:
--   Base: shared helpers. Lists and tests over the native numbers, integers as `pos` and `negsuc`,
--     insertion sort, maps as association lists, an interface to floating point.
--   Store: internal/store. Store/Files and Store/Clusters are the rows (files.go,
--     clusters_write.go, with the transactions WriteBucket and WriteClusters), Store/FilesRepo,
--     Store/Metadata and Store/Analyzed the statements of FilesRepo (files.go), Store/Kv those of KVRepo (kv.go), Store/Picks those
--     of PicksRepo (picks.go), Store/Signals those of AISignalsRepo (ai_signals.go) and Store/Thumbs
--     those of ThumbsRepo (thumbs.go), as functions on lists of rows; Store/Migrate is migrate.go.
--   Group: internal/group. Group/Visual is Cluster of visual.go, its union-find and loops written
--     out; Group/Bucket is clusterIDs and sortRunFiles, Group/Walk the gap walk with its flush,
--     Group/Rebuild the rebuild for each device, Group/Rebuild/CrossDevice the one across devices and
--     Group/Rebuild/RebuildAll both modes from the tables to the tables, with RebuildBucket, all of
--     group.go; Group/Skew is skew.go.
--   Pipeline: internal/pipeline. Pipeline/Progress is the reporter (progress.go), Pipeline/Pool the
--     worker pool as a step relation (pool.go), Pipeline/Stage is runStage, Run and Resume over the
--     interfaces that a Pipeline holds (pipeline.go, stage.go).
--   Picks: internal/picks. Picks/Service is the pick state machine (picks.go) and Unexport
--     (export.go) over the picks table and an interface to the disk, Picks/Export the copying of
--     export.go, which implements that interface on the files of Picks/Disk. Base/Paths is what it
--     uses of path/filepath, on strings, and Base/Decimal the `%d` of its suffixes.
--   Scanner: internal/scanner. Scanner/Formats is format.go, Scanner/Hash what identity.go hashes,
--     Scanner/Walk the walk of scanner.go over the trees of Scanner/Tree, with Store/FilesRepo.
--   Meta: internal/meta. Meta/Fields is captured.go and device.go, Meta/Extract the metadata stage of
--     meta.go.
-- Scanner, Meta and Picks change rows of Store, and Group reads them; Pipeline calls the scanner,
-- the store, the stages and the grouper through parameters.
--
-- How the model reads the code:
--   - int64 ids and counts are natural numbers, times are integers; both are unbounded, so the
--     overflow of 64-bit sums is outside the model. Text is the native string.
--   - A Go map is an association list; where the code ranges over a map, the theorem holds for every
--     order, given as a parameter. sort.Slice is a stable sort here, one of the orders it may
--     choose for ties.
--   - float32 and float64 arithmetic is a parameter (Base/Floats) with no laws assumed.
--   - Clusters are read back as ListAll and MembersOf of clusters.go do, ordered by id.
--   - The columns of files without floating point are modelled: aperture, focal length, GPS and the
--     raw blob are left out of MetadataUpdate.
--   - A transaction or statement that fails changes nothing. Picks take an oracle that says which
--     database call of an operation fails; ctx.Err() is an oracle too.
--     The scanner, the rebuild and runStage take such oracles as well; the one of runStage tells the
--     calls apart by the stage, their place and the pass of the loop.
--   - Events of the reporter are in the order in which the callback's additions happen.
--   - LOWER of SQLite, strings.ToLower, strings.EqualFold and xxhash are parameters.
--
-- Fuel: `find` of Group/Visual gets two more than the number of pairs, which bounds the height of
-- the forest, since each pair adds at most one link. The loop of runStage gets one more than the
-- queue has files, since a pass that does not shrink the queue ends the stage; only the pool is
-- taken to change the queue while a stage runs. Update tries at most twice. The search of
-- resolveTarget gets two more rounds than the disk has files, since its suffixed names all differ.
--
-- Not modelled: folders and permissions of the disk; the parsing of exiftool's JSON and the
-- backfills from it; thumbnails and configuration; HTTP handlers, the web interface, the command
-- line, installation of models, the external tools (exiftool, ffmpeg, sips, ONNX Runtime),
-- logging and elapsed times.
pub mod Base
pub mod Group
pub mod Meta
pub mod Picks
pub mod Pipeline
pub mod Scanner
pub mod Store
