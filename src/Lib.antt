-- ===== src/Lib.antt =====
-- clawhum: a verification library of the web client's logic.
--
-- The program is a hum search service. Its web client (web/, TypeScript) records a query, shows
-- the matches that the server answers, and keeps them in the browser. This library models the
-- client's own modules under web/lib, the oEmbed endpoint, the middleware and the handlers of
-- its pages. A text is the list of its UTF-16 code units, a Set or Map the list of its elements in
-- insertion order, `undefined` and `null` are `none`, and localStorage is a field of an explicit
-- device record. A function that changes state returns the new state. Numbers are natural numbers
-- in a fixed unit (a score in millionths, times in milliseconds).
--
-- Parts, and the code that they are about:
--   Prelude        shared names, Boolean tests, lists, texts, sorting, sets of texts, URI encoding
--   Model          MatchResult and PitchContour of web/lib/api.ts, StoredMatch of web/lib/history.ts
--   Tags           normaliseTags of web/lib/history.ts
--   History        loadMatches, saveMatch, getMatch, clearMatches, deleteMatch and updateMatch of
--                  web/lib/history.ts; saveMatch and updateMatch use the tags of Tags
--   Query          filterMatches and sortMatches of web/lib/history.ts
--   Catalog        deriveCatalog, allTags and downsampleFloat of web/lib/history.ts
--   Export         web/lib/export.ts: flattenMatches, csvField, rowsToCsv, buildJsonExport;
--                  Export/Reader is a reader of RFC 4180 text, the specification of the writer
--   Toast          web/lib/toast.ts: the store of toasts and its listeners
--   BulkSelect     web/lib/bulkSelect.ts: toggleId, toggleAll, pruneStale, summarize, mergeTags
--   WorkerPool     the pool of at most six workers inside bulkDelete and bulkAddTags of
--                  web/app/history/page.tsx, as the sequence of the answers to its requests, in
--                  any order: WorkerPool/Answers (what each answer changes), WorkerPool/Progress
--   Oembed         web/lib/oembed.ts: parseShareUrl, buildEmbedHtml, clampSize
--   EmbedPolicy    GET of web/app/api/oembed/route.ts (over Oembed) and web/middleware.ts
--   Json           JSON values, as JSON.parse gives them, and the tests made on them
--   NotifyPrefs    web/lib/notifyPrefs.ts: the preferences and the log of fired notifications
--   NotifyEngine   web/lib/notifyEngine.ts: tick, fireOne, start and stop (over NotifyPrefs). `tick`
--                  is split at its await, and NotifyEngine/Runs interleaves the two halves with
--                  the other events
--   Onboarding     web/lib/onboarding.ts: the first-run checklist
--   ApiKey         web/lib/apiKey.ts: the saved key, the patched fetch, maskKey
--   Share          web/lib/share.ts: the payloads of POST /api/share
--   SavedViews     web/components/SavedViews.tsx: the handlers and tests on filters of the component
--   HistoryPage    web/app/history/page.tsx: fetchHistory and the selection; HistoryPage/Bulk is
--                  bulkDelete and bulkAddTags around WorkerPool, HistoryPage/Paging the pages and
--                  the tags offered, HistoryPage/Selection compares it with BulkSelect
--   Collections    web/app/collections/page.tsx: the items of the editor; Collections/Saving is save,
--                  remove, fetchList and fetchHistory
--   Feedback       web/app/feedback/page.tsx: buildTriplets and buildQuery
--   Batch          web/app/batch/page.tsx: onPick, runBatch (with the toasts of Toast), the summary
--   SudoSession    web/app/settings/security/sudo/page.tsx: the session held in sessionStorage
--   Keys           web/app/settings/keys/page.tsx: the lifetimes offered; Keys/Handlers is refresh,
--                  create, rotate, revoke and saveIpAllowlist (savePathAllowlist is the same code),
--                  Keys/Panel is openDevices and openHistory, as uses of a panel step by step
--   MatchesPage    web/app/matches/page.tsx, over History, Query and Tags: the filters, the pages
--                  and the handlers that change the store
--   HomePage       web/app/page.tsx: onAudio, over History, Onboarding and Toast
--   Activity       web/lib/activity.ts, the seen mark and the search of web/app/activity/page.tsx,
--                  and useUnreadActivity of web/components/SiteNav.tsx
--   Shares         web/app/shares/page.tsx: the list, its search, fmtExpiry, saveNote and revoke
--   Webhooks       web/app/webhooks/page.tsx: reload, create, remove and openDeliveries;
--                  Webhooks/Actions is setPaused, sendTest, redeliver and rotateSecret,
--                  Webhooks/Rate the card of the delivery rate
--   Insights       web/app/insights/page.tsx: computeAll; Insights/Days: its points by day
--   Privacy        web/lib/privacy.ts: isEraseConfirmed, summarise, normaliseErase
--   Transport      web/lib/transport.ts: setTransport and setMeters
--   Tests          the theorems on concrete inputs
--
-- Fuel: `while (all.length > MAX) all.pop()` of saveMatch has one more unit of fuel than the
-- stored list has matches, and each round removes one match, so it ends by its own test. The loop
-- over the days of computeAll has fuel for one round a day up to the last day and one more. Every
-- other loop is a recursion on a list. The bounds are the code's: 200 matches, 50 log entries, 5
-- toasts, tags of 32 units, urls of 2048 units, 6 workers, 50 items of a collection, 200 MiB.
--
-- Parameters: whether setItem accepts a value (it throws on a full storage), the URL parser, what
-- Headers keeps of a value or refuses, String, Number and toFixed of numbers, toISOString, the
-- locale's collation and calendar, the clock, and the server's answers.
--
-- Handlers with an `await` are two or more functions, the code before it and the code behind it, so
-- that the events of a page can come between them; the handlers of SavedViews are whole runs.
--
-- Not modelled: what React components draw, hooks, audio and canvas, downloads, the time slugs of
-- file names (timestampSlug, exportFilename), the division of the means in computeAll,
-- web/lib/prom.ts, relative and local times, the other pages and components, and everything
-- outside web/ (the Python services, packages and command line, the deployment files). NaN and negative
-- numbers in stored data are outside the model.
pub mod Prelude
pub mod Model
pub mod Tags
pub mod History
pub mod Query
pub mod Catalog
pub mod Export
pub mod Toast
pub mod BulkSelect
pub mod WorkerPool
pub mod Oembed
pub mod EmbedPolicy
pub mod Json
pub mod NotifyPrefs
pub mod NotifyEngine
pub mod Onboarding
pub mod ApiKey
pub mod Share
pub mod SavedViews
pub mod HistoryPage
pub mod Collections
pub mod Feedback
pub mod Batch
pub mod SudoSession
pub mod Keys
pub mod MatchesPage
pub mod HomePage
pub mod Activity
pub mod Shares
pub mod Webhooks
pub mod Insights
pub mod Privacy
pub mod Transport
mod Tests
