-- ===== src/Lib.antt =====
-- miti99bot, a Telegram bot in Go: a document store, a registry of modules with a dispatcher, and the
-- modules themselves, of which the games Wordle and Loldle, the blacklist, the saved messages (alias),
-- the paper trading of stocks and coins, the use counts (stats) and the daily push to subscribers are modelled.
--
-- Parts and files:
--   Storage: internal/storage. Storage/Keys holds keys.go (validateKey, validatePrefix,
--     prefixSuccessor). Storage/Contract holds the interface DocStore of doc_store.go as a record of
--     operations on a state, and IsDocStore, the laws that the modules rely on: what a get, a put, a
--     versioned put and a delete do to the value and to the version of every key, whichever calls
--     fail. Storage/Exact adds the documented answer of each call where no backend fails it.
--     Storage/Memory holds the rows and operations of memory_provider.go; Storage/Provider the
--     collections that modules get. Storage/Program is the form of a handler: a function from a state
--     to a result and the state left behind, also when it fails.
--   Modules: internal/modules. Modules/Validate holds validate.go and the menu description of
--     command_presentation.go, Modules/Registry holds Build of registry.go, with the local variables
--     of its loop in the record Loading; Modules/Dispatcher holds Auth.Permits and matchCommand of
--     dispatcher.go.
--   Chat: SubjectFor and ArgAfterCommand of internal/modules/util/chathelper.
--   Wordle: internal/modules/wordle. Compare, Lookup and State stand for the files of these names, and
--     Handlers for handlers.go and pick_random.go.
--   Loldle: internal/modules/loldle. Compare, Lookup, State and Handlers stand for the files of these
--     names.
--   Blacklist: internal/modules/blacklist. Match, Scope and Handlers stand for the files of these names.
--   Alias: internal/modules/alias. Media stands for alias_media.go and Inline for alias_inline.go; of
--     handlers.go, Names holds parseName, Listing renderNames, and Handlers the commands.
--   Stock: internal/modules/stock. Amounts stands for dividends.go, Pending for pending_dividend.go,
--     Account for portfolio.go, symbols.go and parts of dividend_history.go, Callback for
--     dividend_callback.go, and Handlers for the commands of handlers.go that change a portfolio.
--   Coin: internal/modules/coin. Account stands for portfolio.go and symbols.go, with the writes of other
--     instances between a read and a write of UpdatePortfolio as a parameter, and Handlers for the
--     commands of handlers.go with trade_args.go and helpers.go.
--   Stats: internal/modules/stats. Usage holds docUsageStore of usage_store.go, and Views views.go.
--   Subscription: internal/modules/util/subscription. Subscription holds subscription.go, Push the push
--     of push.go, and Claim its ClaimDay, as a function and as the steps of claimers that interleave.
--
-- A handler of a game works on any stores that keep the contract and do not touch each other's keys, and
-- so does the button of a dividend on the portfolios and the pending actions, which share a collection
-- under different keys; the other modules work on any store that keeps it. The names of the saved
-- messages are checked against the registry that Build returns.
-- Go runs a handler of a game or of a portfolio under the lock of its subject or user, and the calls on the
-- list of members and on the use counts under the lock of the module, so each is one run here; only
-- the claims of a day are taken apart into steps, and the updates of a coin account meet other writers
-- before each of their writes. Tests modules run the handlers on concrete stores.
--
-- Strings are lists of bytes. Go's maps are association lists, or functions where they are only read. Loops
-- over strings take fuel that their length bounds: occurrences, trimSpace, fields and the rune count
-- consume at least one byte in each round; the attempts of UpdatePortfolio are counted down from the
-- source's five. The dividends keep the bounds of 64-bit integers with their
-- checks; other integers are unbounded, since no counter here comes near 2^63.
--
-- Parameters: the codec of the in-process backend, NFKC, the lower and upper case and the case folding of
-- Unicode, the clock, the random choice, the answers of Telegram, the prices of stocks and coins, the operations
-- on floating-point numbers, the champions, the cancellation of a context, the order in which Go runs over
-- a map, and the factories of the modules.
--
-- Not modelled: the MongoDB driver and its aggregations, the wording of replies with its HTML, stickers
-- and log lines, the SSI client and the history and notices of dividends, the other modules
-- (gold, amlich, sticker, lol, weather, monkeyd), the cron scheduler, the locks, logs, metrics, the HTTP
-- server and the renderer, which are mostly calls of services.
pub mod Base
pub mod Storage
pub mod Chat
pub mod Wordle
pub mod Blacklist
pub mod Subscription
pub mod Modules
pub mod Loldle
pub mod Alias
pub mod Stock
pub mod Coin
pub mod Stats
