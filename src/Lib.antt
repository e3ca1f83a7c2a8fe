-- ===== src/Lib.antt =====
-- Models of the TypeScript core of the repository, and what holds of it.
--
-- Three programs are modelled. The dashboard's router (dashboard/packages/api/src/routers/dashboard.ts)
-- reads the routes and data formats of all services from their YAML and IDL files, edits those files,
-- and sums up what it read. The deployment router beside it (deploy.ts) checks a request, builds `pr ros2:deploy` command
-- lines, and runs `git pull` and then one command for each package, streaming what they print. The
-- terminal monitor (monitor/pr-monitor/src) discovers the endpoints that the project's YAML files
-- declare, polls collectors for samples, keeps statistics, histories and recent payloads for each
-- endpoint, and lists them page by page under the keys of its user.
--
-- Files and the code that they model:
--   Base: texts, lists, association lists, results, effects, sorting, decimal texts; no program code.
--   Dashboard/Lines, Names, Paths: of dashboard.ts the texts of lines (lineInfo, parseKeyValue,
--     replaceLineRange), the names it accepts (validateModuleName and those beside it) and the paths
--     it may edit (absoluteRepoPath).
--   Dashboard/Routes, Details with their children Parse, Handlers, Items: the two state machines over
--     lines, parseCommunicationRoutes and parseDetailCommunicationItems, one function per handler.
--   Dashboard/Blocks, Blocks/Edit: the search for YAML blocks (yamlChildBlockRange,
--     communicationSectionStart) and their edits (appendYamlRouteBlock, replaceYamlRouteBlock and the
--     two for the top level).
--   Dashboard/Formats with Fields, Render: the data formats, read (parseProtoFormats, parseDdsIdlFields,
--     parseRosFields) and written (renderDataFormatDefinition, replaceProtoMessageBlock).
--   Dashboard/Interfaces, Ros2: mergeModuleCommunicationItems, the blocks of new routes, the CMake file
--     and the manifest of a ROS 2 package.
--   Dashboard/Values with Profiles, Projects, Dashboard/Walk, Transports, Snapshot: JSON values, robot
--     profiles, project summaries, the search for files, summarizeTransports and createSnapshotData.
--   Dashboard/Operations with Create, Provide: the operations that write files, on a state of the files
--     and of the snapshot that is kept. The other files of Dashboard hold proofs and tests.
--   Deploy/Input, Packages, Command, Run: the router's validation (validateDeployTarget and those
--     beside it), the packages that the repository has (readDeployPackages, parseXmlTag), the command
--     lines (buildDeployImageArgs to commandForDisplay) and the two deployments (deployPackage,
--     streamDeployPackage). The other files of Deploy hold proofs.
--   Monitor/Types, Format: types.ts and the texts of format.ts that hold no measured value.
--   Monitor/Yaml/Value, Parse: the values of yaml.ts, their readers and the parser, with its stack of
--     open containers.
--   Monitor/Discovery/Draft, Interface, Communication, Collect, Merge, Discover: discovery.ts,
--     from the texts of the files to the sorted endpoints.
--   Monitor/Collectors/Quote, Domains: of collectors.ts the quoting of shell arguments and the choice of
--     ROS contexts.
--   Monitor/Collectors/Rounds: of collectors.ts the routes that a tick of CycloneDdsCollector and of
--     Ros2Collector chooses to sample, and the cursor between ticks.
--   Monitor/Model/State, Sampling, Collect, View: the class MonitorModel of model.ts and its functions.
--   Monitor/Numbers: the arithmetic of its sequence numbers.
--   Monitor/Screen/Keys, World, Modes: of index.ts the keys (handleKey, moveSelection), what a frame
--     does to the page and the selection (renderSelf), the options that `main` checks, and the event
--     loop of `main` as a step relation: key presses, timer ticks, frames and the collectors'
--     answers, in any order.
--
-- How the code is rendered. A string is the list of its UTF-16 code units; `toLowerCase` is on
-- ASCII letters only, and names of keys, formats and schemes are ASCII. A regular expression is a
-- function that tests what it accepts. A Map is an association list in the order of insertion, a
-- thrown error a value of Result, an object that is changed in place a record passed on. Sorting is
-- a stable insertion sort under the comparator read as an order. Every loop is a recursion on the
-- list that it walks, so no fuel is needed, but for the loop of routeInsertIndex, which takes blank
-- lines out of the list that it is in: it has as many rounds as there are lines and one more, and is
-- proved to end within them. A handler that answers true with a changed state is `some` of that
-- state, and `none` where it answers false. A collection is in two parts, before its `await` and
-- after it: what happens between them is the step relation's choice. A selected line of -1 is none.
--
-- Parameters. Measured values are of a type that is a parameter with its addition, its test for
-- positive values and its rounding (Host): JavaScript's floating numbers are not built. What
-- rounding gives, whole numbers, infinities and NaN, is (Monitor/Numbers). The clock
-- and the collectors' answers are arguments. The order of `localeCompare` is a parameter; where a
-- theorem needs that it is total and transitive, it says so. The child processes, the output stream
-- and the file system of the router are parameters too: functions that may fail, whose effects are
-- recorded; so is the text of a decimal fraction in YAML. The operations of the dashboard's router are
-- on an association list from paths to texts; the catalogs that they read first are arguments.
--
-- Not modelled: reading directories and starting processes, what the collectors run and parse (ps,
-- ros2, Prometheus), number formatting and drawing, command-line arguments of the monitor, the
-- schemas of the routers' inputs, the dashboard's web, native and terminal front ends, and the
-- programs under bin.
pub mod Base
pub mod Dashboard
pub mod Deploy
pub mod Monitor
