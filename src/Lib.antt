-- ===== src/Lib.antt =====
-- A verification library for helpmate-tablebase, the Python code that decides which contributed
-- endgame tables enter the published dataset.
--
-- The paths below are from the repository's root; contrib/ stands for
-- src/packages/api/helpmate_server/contrib/.
--
-- A contributor claims material classes in an issue and delivers tables in a pull request of the
-- dataset. Verification recomputes stored values from their successors (V6) and compares samples
-- with an independent solver (V7). Accept then decides on each delivered material, on each pull
-- request, and on who is credited.
--
-- Base           lists, dictionaries, sorting, texts and Boolean tests that all parts share
-- Game           python-chess as the record Chess: a board, its legal moves, the turn and check.
--                Moves stand for their UCI texts. count_lines counts mating lines with no cap.
-- Oracle         contrib/oracle.py: _lines, solve and the comparison loop of check_oracle. The
--                recursion of _lines is on its depth, the loop of solve on the rounds left.
-- Consistency    contrib/consistency.py: check_position. The reader of the tables, the C++
--                extension, is the record Reader; what is used of it is IsReader, that an entry of
--                the move list names the position after the move and shows the stored value.
-- Materials      contrib/materials.py: _SHAPE, canonical, universe and the properties of Material.
-- Claims         contrib/claims.py, hf.py and registry.py: ClaimIndex, identity_claim,
--                ownership_conflict, PullRequest.materials and the registry's lookups. parse_links
--                of contrib/links.py works by regular expressions and is an argument.
-- Accept         contrib/accept.py: decide. Its payload hashes are a function that may raise
--                MissingPublished, its result the sum Outcome. Accept.Plan has _pr_plan, with
--                none for a KeyError, and _outcome. Accept.Merging is Git.wait_and_merge and
--                what it calls, over the log of the calls made; gh, git and json.loads are
--                arguments, and of a command its address and branch are left out.
--                Accept.Hub has merge, merge_by_copy, comment and close_pr of contrib/hf.py, and
--                Accept.Landing the merge step of accept, over the log of the calls of the Hub;
--                the commit messages and the cache of file trees are left out.
--                Accept.Crediting has _credit and _own_deliveries: of an exception it keeps that
--                there is no registry, the JSON files are arguments, and the lines for the
--                changelog are left out.
-- Effects        code that changes a state and may raise, with a rule for each way to build it.
-- Registry       contrib/registry.py: the producers of each table and resolve_contributor.
-- Overview       contrib/claims.py, material_status.
-- Verify         contrib/checks.py, Check and TableReport, and contrib/verify.py: Verify.Table is
--                verify_table over the results of its checks, which the record TableChecks holds;
--                Verify.Header has check_header and check_block_integrity, with json.loads an
--                argument, and Verify.Deepest check_deepest over the probes of the C++ reader.
--                Verify.Hygiene is check_pr_hygiene, Verify.Labels has pr_login and classify, and
--                Verify.Reuse has reusable and Verify.Hashes PublishedHashes, with the
--                result of payload_sha256 on a local file, an exception too, as an argument.
-- CorpusDiff     src/packages/api/helpmate_server/corpus_diff.py: ShaCache, file_status and diff,
--                over a snapshot of the local directory in which a file carries its hash.
-- Push, Pull     src/packages/api/helpmate_server/tables_cli.py, the commands push and pull, and
--                manifest.py, build_manifest. The Hub is an argument; the fuel of batches is the
--                number of files, of which each batch has one at least.
-- Storage        src/packages/api/helpmate_server/storage.py and manifest.py, verify_file. The state
--                of a RemoteSource, its files and its threads is explicit; the hub is an argument
--                of each operation, so that it may answer differently each time.
--                Storage.Interleaving lets calls and downloads proceed in any order;
--                Storage.Chain has LocalDir, the catalogs and ChainSource.
-- TableFile      contrib/tablefile.py: the header, the block index, BlockReader and check_blocks, on
--                the bytes of a file; zstandard is an argument. Positions and counts that Python's
--                files refuse raise; that memory suffices for a read is assumed. The loop of BlockReader.read has
--                the number of bytes asked for as its fuel, since a round reads one at least.
-- Site           contrib/site_status.py: build_status. The manifest's files, the open pull requests
--                and the claims are arguments, and the date is left out.
-- Picker         tools/problem_picker.py: pick and what it compares. Quotients of floats are
--                exact ratios; the fuel of its loop is the size of the pool, which shrinks in each
--                round.
-- Tests          concrete inputs, and each theorem applied to one.
--
-- Sets are lists without repetition, dictionaries association lists in insertion order, the
-- messages of results data types that hold what the messages name. Letter case is that of ASCII,
-- as GitHub logins have it. No definition needs fuel beyond the bounds of its own loop.
--
-- Not modelled: the C++ core and its bindings, the HTTP service, the command lines, the calls of
-- git, GitHub and the Hub, random sampling, generated pages and the site.
pub mod Base
pub mod Game
pub mod Oracle
pub mod Consistency
pub mod Materials
pub mod Claims
pub mod Registry
pub mod Verify
pub mod Overview
pub mod CorpusDiff
pub mod Storage
pub mod Site
pub mod TableFile
pub mod Picker
pub mod Effects
pub mod Push
pub mod Pull
pub mod Accept
pub mod Tests
