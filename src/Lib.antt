-- ===== src/Lib.antt =====
-- A model of the policy-witness controller's own logic (controller/src), with its theorems.
--
-- The controller reads a specimen request, scans and resolves the imports of its SBPL source, and
-- reports what it found. The files follow the source's modules:
--   SbplLex      controller/src/sbpl_lex.rs: the scanner for import forms. `import_scan`,
--                `keyword_scan`, `try_match_form`, `try_match_keyword_form`, `skip_string`, `skip_ws`
--                keep their names; their inner loops are functions of their own. A position in the
--                byte slice is the rest of the slice, so an index past the end cannot be written.
--   SbplImports  controller/src/sbpl_imports.rs: names, records, the system that is read;
--                SbplImports.Walk has `dfs_visit_import`, `resolve_imports` and
--                `compute_closure_hash`. The walk calls `import_scan` on each file that it reads.
--                The visited files are told apart by the bytes of their paths. The source compares
--                them by components, which can differ only for a path that `canonicalize` refuses.
--   RunnerManager
--                controller/src/runner_manager.rs: records, registry and ownership;
--                RunnerManager.Cleanup has `remove_record` in the steps of its body. Each call of the
--                `CleanupSystem` takes the world and gives a new one, and is noted in a log that no
--                decision reads; the log keeps the location found for a record as well. RunnerManager.Install has `install_record`, RunnerManager.Kinds the
--                names of kinds and scopes and the reading of an entitlement dictionary.
--   Shape        controller/src/shape.rs: `collect`, with `record` as `record_key` and the loops of
--                `collect` as functions of their own, and `same_shape`.
--   RequestPatch controller/src/request_patch.rs; `RequestError::new` is `new_error`.
--   Evidence     controller/src/evidence.rs.
--   Augments     controller/src/augments.rs. `resolve_policy_augments` is a chain of steps that may
--                return early, and `settle` ends it; a policy changed in place is a result.
--   RunnerSelect controller/src/runner_select.rs: the types, with `parse_runner_selector_value` in
--                RunnerSelect.Parse and `resolve_runner_target_with_registry` in RunnerSelect.Target,
--                which reads the manifest through Evidence and the registry through RunnerManager.
--                The read loops over an object's keys and over an array are functions of their own.
--   RunnerClient controller/src/runner_client.rs: the types of a capture; RunnerClient.Base64 has
--                `decode_base64`, RunnerClient.Attempts and RunnerClient.Validate `validate_capture`
--                in the steps of its body, the loop over the attempts apart. RunnerClient.Run has
--                `parse_runner_client_output` and `fallback_eligible`, with `capture_json_output` of
--                controller/src/utils.rs, and RunnerClient.Deadline `deadline_ticks`.
--   Json         serde_json's `Value`, with a number kept as its text.
--   Base         what the modules share. Strings and byte slices are lists of bytes, an ordered set is
--                an increasing list, a sort is a stable insertion sort.
--
-- Loops and fuel. The scan takes one round for each byte of the source and the walk to a closing
-- parenthesis one for each byte that is left; each round moves the position forward. The walk over
-- the imports takes a fuel of 8, the depth bound of the source. The wait after a bootout takes 20
-- rounds of 50 ms, the source's 1000 ms.
--
-- Parameters. `System` stands for the file system, which does not change during one walk, for
-- SHA-256, and for two conversions of std (`Path::display` and the {:?} form of a string). `CleanupSystem` stands
-- for launchd, the file system, `save_registry` and the clock, `InstallSystem` for `save_registry`
-- and the caller's installation; they may answer anything at each call. `RequestReader`,
-- `EvidenceSystem`, `TargetSystem`,
-- `AugmentSystem` and `ClientSystem` stand for serde_json, files, digests, paths and the {:?} form.
--
-- Not modelled: the Swift and C parts, process and signing commands, the signing and validation of
-- a runner and its equipment inventory, and the modules of the controller that are not named above.
pub mod Base
pub mod SbplLex
pub mod SbplImports
pub mod Json
pub mod RunnerManager
pub mod Shape
pub mod RequestPatch
pub mod Evidence
pub mod Augments
pub mod RunnerSelect
pub mod RunnerClient
