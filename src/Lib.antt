-- ===== src/Lib.antt =====
-- Gantry's web client (web/src): the logic behind its flow editor, its forms and its plugins.
--
-- Gantry is an internal developer portal: a Go server (cmd, internal) keeps a catalog of entities,
-- and a React client (web/src) shows it. The client's pages call the helpers of web/src/lib, and
-- those helpers are what is modelled here. The flow editor (web/src/pages/Flow.tsx) keeps a flow, a
-- list of nodes and a list of edges, as an entity of the catalog; it draws nodes in sizes and colours
-- from web/src/lib/flow.tsx, colours edges by the health of the entities at their ends, and hands the
-- flow to web/src/lib/flow-export.ts, which writes SVG texts and a PDF. Forms send values that
-- web/src/lib/utils.ts fills with defaults and prunes. Plugins extend the client through the
-- registries of web/src/lib/plugin-runtime.ts. Calls of the API go through web/src/lib/api.ts (but
-- for that of the plugin loader), which holds the token of the session that
-- web/src/hooks/useAuth.tsx starts and ends.
--
-- Files and what they model:
-- - Base: lists, texts, maps and integers that the other files share.
-- - Utils/EntityName: sanitizeEntityName, sanitizeEntityNameInput and isValidEntityName of
--   web/src/lib/utils.ts.
-- - Utils/Path: encodePathSegment and catalogEntityPath of the same file.
-- - Utils/Json, Utils/Prune, Utils/Defaults: pruneEmpty and applySchemaDefaults of the same file,
--   over a data type of JSON values.
-- - Export/Escape, Export/Wrap, Export/FileName: escapeXml, wrapText and sanitizeFileName of
--   web/src/lib/flow-export.ts (FileName also has sanitizeFlowName of web/src/pages/Flow.tsx).
-- - Export/Bytes, Export/Pdf: concatBytes and buildPdfFromJpeg of web/src/lib/flow-export.ts.
--   Export/Decimal and Export/Pdf/Reading say how the numbers in the PDF are read.
-- - Export/Options: normalizeExportOptions, resolveThemePalette and getDocumentBackground of it.
-- - Flow/Types: the flow types of web/src/lib/types.ts.
-- - Flow/Health, Flow/Looks, Flow/Dimensions, Flow/Graph: connectedEdgeHealth, the colours and labels,
--   getNodeDimensions, and getAbsolutePosition and collectDescendants of web/src/lib/flow.tsx.
-- - Flow/Copies: nextDuplicateFlowName and cloneFlowSpecWithNewIDs of web/src/pages/Flow.tsx.
-- - Flow/Fields: a node with one field changed.
-- - Flow/Bounds: getFlowBounds of web/src/pages/Flow.tsx.
-- - Flow/Repair: ensureFlowSpec of web/src/lib/flow.tsx, over the JSON values of Utils/Json.
-- - Flow/Arrange, Flow/Arrange/Rows: autoArrangeNodes and getNodeEffectiveBounds of web/src/lib/flow.tsx.
-- - Session: setToken and request of web/src/lib/api.ts with AuthProvider of
--   web/src/hooks/useAuth.tsx, as a state machine: what can be clicked and which call is answered
--   are events, in any order. While the client loads, App (web/src/App.tsx) shows nothing to click.
-- - Editor/State, Editor/Nodes, Editor/Nesting, Editor/Adding, Editor/Removing, Editor/Edges: the state of
--   the component Flow of web/src/pages/Flow.tsx and its handlers, named as there; Editor/Actions puts
--   them together as the actions of a user. Editor/Intact, Editor/Acyclic, Editor/Guards, Editor/Marks and
--   Editor/Links prove what they keep, over Editor/Closed, Editor/Seeds and Editor/Marking. Editor/Samples is for the tests.
-- - Editor/Titles, Editor/Draft, Editor/Page: nextDuplicateFlowTitle, resetDraft, loadFlow, startNewFlow,
--   selectFlow, duplicateCurrentFlow, saveFlow and deleteFlow of the same file, the effect that loads the
--   page, and the page as events.
-- - Editor/Resize, Editor/Dragging: getResizeAlignment, the effect for a node that is resized and the one
--   for nodes that are dragged, of the same file. The button Auto-arrange is in Editor/Actions.
-- - Api: every endpoint of web/src/lib/api.ts, as the request that it makes.
-- - Plugins: the registries, their accessors and loadPlugins of web/src/lib/plugin-runtime.ts.
--
-- How the code is read: a string is the list of its UTF-16 code units, and `\s` and `trim` are those
-- of ECMAScript. `toLowerCase`, `encodeURIComponent`, `crypto.randomUUID`, the arithmetic on fractions
-- in a PDF, the halving of sizes and what `fetch` and `import` give are parameters. Pixels are whole numbers, those of positions with a sign.
-- A `Map` is the list of its entries in the order of insertion, with the last value of a key. A value
-- that may be missing is an `Option`.
--
-- State of React is set at once, in the order of the calls: where React runs an updater later, what a
-- handler reads of the state is what it was when the handler was made. A nudge reads what its updater
-- sets; whether React has run that by then is an argument of the action. An action on a node names one
-- that is shown. `localeCompare` and the answers of `window.confirm` are parameters of the drafts.
--
-- Fuel: getAbsolutePosition takes two steps more than there are nodes, and stops at the first node
-- that it has visited; collectDescendants takes one round more than there are nodes, and each round
-- but the first is for another id; the cutting of a long word takes as many rounds as the word has
-- units, and each takes at least one where a line has room for a unit (the source asks for lines of
-- more than that); nextDuplicateFlowName takes one round more than there are
-- names, and each round but the last is for another name; autoArrangeNodes takes as many rounds as there
-- are nodes in no other, since each is queued once.
--
-- Not modelled: the Go server; the JSX of pages and components, with their DOM effects; the
-- sanitizer of web/src/lib/markdown.ts; the other hooks; where getAlignmentPosition and the
-- grid put a dragged node, and over which other node it is, which are inputs of the actions; values that
-- an object inherits under the key of a schema's property; the drawing of the SVG and its rasterizing in the browser.
mod Base
pub mod Utils
pub mod Export
pub mod Flow
pub mod Plugins
pub mod Session
pub mod Api
pub mod Editor
