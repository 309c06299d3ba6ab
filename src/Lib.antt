-- ===== src/Lib.antt =====
-- OGInstagram's server (server/*.go) answers links to Instagram posts, profiles and stories with
-- cards: a request is routed, the post is fetched through one of several sources, cached, and its
-- media are served through signed offload links. This library models the parts of it that decide,
-- count and remember.
--
-- Parts and files:
-- - Base, Base64, Decimal, UrlQuery: shared lists, texts, maps and rings, and what the source uses of
--   Go's strconv, encoding/base64 and net/url. A text is the list of its bytes.
-- - Config: the constants of server/config.go. A duration is in nanoseconds, and an instant is the
--   nanoseconds since Go's zero time.
--   Instant: the instants and durations of Go's time package, with their limits of 64 bits.
--   Config.Startup: the configuration that `configFromEnv` reads and `validate` accepts.
-- - Errors: server/errors.go, the application error and its policy.
-- - Query: server/query.go. Routes: server/routes.go and the name patterns.
-- - Offload.Route: `offloadRoute` of server/gateway.go. Offload.Signer: server/offload_signer.go.
-- - Models: the posts, profiles and stories of server/types.go and server/profile.go; Models.Valid: the
--   tests of server/cache.go that they must pass; Models.Lifetime: how long their links live;
--   Models.Valid.Normal: their media on the common host.
-- - Fetch.Staged: `stagedFetch` of server/fetch.go. Fetch.Gate: its `v6Gate`, which each operation's
--   attempts over IPv6 pass. Fetch.Json and Fetch.Interpret: what the answers of Instagram mean.
--   Fetch.Pool: the sessions of server/proxy.go. Fetch.Via: `fetchViaProxy`, which goes through the gate
--   and falls back to the DC pool.
-- - Post.Oembed: `oembedVerdict` of server/fetch.go. Post.Hidden: `hiddenPost` of server/app.go, whose
--   step is one case of its `select`. Post.Get: `getPost` and `fetchPost`, which hand a hidden post to it.
-- - Server: the responses of server/main.go; Server.Handlers: the handlers of cards and offload links, with
--   server/media.go; Server.Profiles: `fetchProfile` of server/profile.go.
-- - Storage: the metrics of server/storage.go; Storage.Flush: their flush to the database;
--   Storage.Quantile: the bin of a quantile.
-- - Helpers: the texts and the selection of attachments of server/helpers.go.
-- - Linkify: the links of a caption, server/linkify.go, whose texts are lists of code points;
--   Linkify.Visible: a reader of the HTML that is written.
-- - Story.Door: `storySideDoor` of server/story.go.
-- - Cache.Local: the in-memory half of server/cache.go. Cache.Flight: its `get`, `runFlight` and `put`.
-- - Gateway.Bots, Gateway.Resolve and Gateway.Preview: `botLimiter`, `resolveGatewayRoute` and
--   `previewQuery` of server/gateway.go. Gateway.Serve: `ServeHTTP`, which asks each of them and the
--   signer. Gateway.Edge: what the edge may keep of a response.
-- - Tests: runs on concrete inputs.
--
-- A method that holds a mutex is one step on the state, and the clock is an argument. Go's `nil` and
-- a false `ok` are `none`; so is a panic. HMAC-SHA256, JSON encoding, `url.PathEscape` and
-- `(*url.URL).EscapedPath` are parameters; of the first a theorem may ask that a digest has 32 bytes.
-- So are the clone of a model through JSON, `url.Parse`, the lookups of gjson, floating-point
-- arithmetic and the requests themselves. A theorem on `url.Parse` may ask that a URL with a replaced
-- host is printed and parsed with it, and one on the clone that the JSON of a model is decoded to it.
--
-- Bounds and fuel: media indices are below 50, decimals below 2 ^ 53 and signed times below 2 ^ 63.
-- Decimal printing recurses on fuel of one more than the number, and every call divides by ten.
-- Shortcode digits recurse on the eleven places of the array, which 64 bits fill. The loop of
-- `hiddenPost` needs no fuel: it runs on the list of its events, and four are enough. Lifetimes are
-- bounded for clocks up to the year 2262: from then on, the subtraction of the margin wraps for the
-- oldest links.
--
-- Not modelled: SQLite and the model rows in it, the reading of an HTTP answer, the preview's Turnstile check and the
-- status page, the rendering of cards, and the parsing of pages. Network, files, logging and templates
-- are left out.
pub mod Base
pub mod Config
pub mod Errors
pub mod Fetch
pub mod Decimal
pub mod Base64
pub mod Query
pub mod Routes
pub mod UrlQuery
pub mod Models
pub mod Offload
pub mod Post
pub mod Cache
pub mod Story
pub mod Gateway
pub mod Server
pub mod Helpers
pub mod Storage
pub mod Instant
pub mod Linkify
pub mod Tests
