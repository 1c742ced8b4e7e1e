-- ===== src/Lib.antt =====
-- OpsForge: ten command-line utilities for Linux hosts that observe one thing each (health checks,
-- certificates, services, ports, processes, disks, logs, drift, endpoints, incidents), over a shared
-- package `opsforge/common`. This library models the shared package where it has logic of its own,
-- HealthCtl, the utility that runs configured checks with dependencies, ConfigDiff, which compares
-- files and directory trees, PortLens, which shows listening sockets, the evidence of SvcDoctor, and
-- the verdicts of CertWatch.
--
-- The parts, by file of the repository:
--
--   opsforge/common/status.py: Status, the exit statuses.
--   opsforge/common/text.py: Escape. `sanitize_text` and `has_unsafe_characters`; text of a target
--     goes through the former before it reaches a terminal.
--   opsforge/common/systemd.py: Units. `normalize_service_name`, with `has_unsafe_characters` of Escape.
--   opsforge/common/net.py: Net. Net.Host is `parse_host` and its kin, Net.Resolve is `resolve_tcp`
--     with `_make_candidate` and `normalize_sockaddr`, Net.Connect is `connect_first` over the
--     candidates of Net.Resolve.
--   opsforge/common/process.py: Process. `run_bounded`, with what each round of its loop meets as data.
--   opsforge/common/output.py: Output. Output.Files is `_write_new` and `_replace_atomically` over a
--     file system that is a function from paths, with the loop over the bytes that each `os.write`
--     takes; Output.Emit is `emit_output`.
--   opsforge/common/fs.py: Fs. `open_regular_file`, with the metadata of a file. Fs.Reading is the loop
--     that reads a file of known size, as `read_exact_snapshot` of configdiff.py and
--     `read_config_bytes` of healthctl.py have it.
--   opsforge/common/procfs.py: Procfs. `split_stat` and `unified_cgroup_path`.
--   opsforge/configdiff/configdiff.py: Drift. Drift.Snapshot reads and hashes files with the loop of
--     Fs.Reading (`open_regular_file` to `read_file_pair`, `hash_exact_snapshot`); Drift.Collect, with
--     its children Visit and Root, is `collect_directory` and its nested functions; Drift.Directory is
--     `compare_directories`; Drift.Contents is what the modes compare, with `canonical_json` on the
--     documents of Health.Json; Drift.Modes is `compare_files_mode`; Drift.Main is `main`.
--   opsforge/portlens/portlens.py: Ports. Ports.Selection is `parse_port_selection` and `port_filter`;
--     Ports.Endpoint the parsers of `ss` rows; Ports.Query is `run_ss_query`, on the outcomes of
--     Process, and `discover_sockets`; Ports.Owners is `find_socket_owners`; Ports.Display the displayed
--     rows and their order; Ports.Inspect is `inspect_selection`; Ports.Main is `main`.
--   opsforge/svcdoctor/svcdoctor.py: Svc. `parse_properties`, `validate_properties`, the dependencies
--     of a unit, `slice_ancestors` and `assess_service`, on what systemctl prints; Svc.Chain is
--     `collect_slice_chain`, Svc.Limits `effective_limits`, whose fractions have powers of ten below.
--   opsforge/certwatch/certwatch.py: Cert. `assess_validity`, `classify_target`, `aggregate_status`.
--   opsforge/healthctl/healthctl.py: Health. Health.Types holds the dataclasses and `_error_result`;
--     Health.Json and Health.Config read the configuration (`_common_check_fields`, the parsers of
--     `CHECK_TYPES`, `parse_config_document`) with the hosts of Net.Host and the names of Units;
--     Health.Depends is `_validate_dependencies`; Health.Schedule is `evaluate_config`; Health.Retry
--     is `run_check`; Health.Aggregate is `aggregate_status` and `result_exit_code`; Health.Main is
--     the part of `main` from the loaded configuration to the exit code.
--
-- How the code is read. Python's `str` and `bytes` are lists of numbers (Prelude.Texts). An exception
-- is a constructor of a result type, its message a constructor with what the message shows. What leaves
-- the `main` of a utility is no exit status but an error of `Exit`, since the interpreter decides on
-- the status then. State that
-- the code mutates is passed on: the sets of `_validate_dependencies` are `Marks`, the dictionary,
-- the list and the counter of `evaluate_config` are `Board`, the file system is `Files`, the open
-- sockets of `connect_first` are a list, and what the nested functions of `collect_directory` change is
-- `Walk`. Threads: a check's thread runs `executor` once and puts its result into a queue, so the
-- order in which the results are taken off is the only freedom, and it is an argument, `picks`; `Health.Schedule.loop` takes one result per round.
--
-- What the code calls and does not define is an argument: `unicodedata.category`, `str.isprintable`,
-- `str.isspace`, `ipaddress`, `urllib.parse.urlsplit`, `os.fsencode`, the resolver's answer, what a
-- socket does (`Dialled`), which system calls raise (`Faults`) or what they answer (`FileAnswers`, the
-- tree `Children`, `ProcessEntry`), what systemctl prints, SHA-256, the JSON decoder, `difflib`, the
-- encoding of a stream. Floats are an abstract type with the comparison that the code makes. The hypotheses on them are that printable
-- characters are not in an escaped category, that visible ASCII characters are not either, that a
-- file that was made can be removed again, that `os.read` gives no more bytes than it is asked for, and
-- that hashing in parts is hashing the whole.
--
-- Fuel. `Health.Depends.visit` recurs on one more than the number of checks, since the names being
-- visited are distinct names of checks; `Health.Schedule.loop` has one round more than there are
-- checks, since each round completes one; `Health.Schedule.dispatch` has one pass more than checks
-- wait, since a pass that makes progress leaves fewer; `Fs.Reading.read_loop` has one round more than
-- the file has bytes, since each read that does not end the loop takes one at least;
-- `Svc.slice_ancestors` has two rounds more than the name has characters, since the name of a parent
-- is shorter unless it is the root. In each case it is proved that the fuel is
-- enough.
--
-- Not modelled: the rest of `opsforge/certwatch`, the commands, the journal and the report of
-- `opsforge/svcdoctor`, the probes of HealthCtl and the reading of its file,
-- JSON decoding, rendered reports, argparse and the other utilities, the start and the
-- killing of children in `opsforge/common/process.py`, and the route parsers of
-- `opsforge/common/procfs.py`.
pub mod Prelude
pub mod Result
pub mod Status
pub mod Escape
pub mod Units
pub mod Net
pub mod Cert
pub mod Drift
pub mod Fs
pub mod Health
pub mod Output
pub mod Ports
pub mod Process
pub mod Procfs
pub mod Svc
