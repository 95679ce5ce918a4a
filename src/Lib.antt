-- ===== src/Lib.antt =====
-- BPS: a chain of the Cosmos SDK, with a capped supply of its coin and a module `bps` of its own.
--
-- The application (app) is built from the SDK's modules, with the mint function of
-- app/mint_hardcap.go in place of the SDK's; x/bps is a module with one item of parameters, which
-- its authority updates by a message. A block runs the mint function; transactions reach the
-- message server of x/bps as bytes, by the codec of x/bps/types.
--
-- Mint models app/mint_hardcap.go. `clamp_mint_to_hard_cap` is clampMintToHardCap,
--   `hard_cap_mint_fn` the function that NewHardCapMintFn returns, `provide_hard_cap_mint_fn`
--   ProvideHardCapMintFn. A run is a function of a context: the keepers' stores, the events and the
--   gauge of minted tokens, and the calls that move coins emit the bank's events to it; it returns a value, returns an error or panics, and what was written
--   before that stays written. Mint/Sdk has the integers, the coins and the keepers of the SDK as
--   parameters, with what the code relies on as laws. Mint/Clamp and Mint/Bounds are about the clamp,
--   Mint/Supply and Mint/Cap about one run, Mint/Progress about runs that succeed, Mint/Chain about
--   many blocks.
-- Keeper models x/bps/keeper, and of x/bps/module and x/bps/types the genesis, the parameters and
--   ProvideModule: `new_keeper`, `update_params`, `query_params`, `init_genesis`, `export_genesis`,
--   `module_init_genesis`, `module_export_genesis` and `module_validate_genesis`, over a store,
--   addresses and JSON that are the parameters of Keeper/Sdk. The calls that are refused and served are in
--   Keeper/Authority, and genesis data that is no JSON in Keeper/Genesis.
-- Wire models the generated codec, the .pb.go files of x/bps/types. A byte slice is a list of
--   numbers, and an int or a uint64 the number of its 64 bits. Wire/Varint has encodeVarint, sov and
--   the loops that read a varint, Wire/Skip the functions skip…, with the
--   length that they return in Wire/Skip/Moves, Wire/Message what the methods of the
--   messages share, and Wire/Params, Wire/Genesis, Wire/Tx, Wire/Query and Wire/Module the messages
--   of the files of these names. A write outside a slice, which panics, is `none`. Wire/Ends is
--   about the end of every Unmarshal, and Wire/Forward about fields that a message does not know, which
--   Wire/Skip/Values describes.
-- Service models the handlers of the two services in x/bps/types: Wire decodes the request, Keeper
--   serves it. Service/EndToEnd is about bytes that reach the store and come back.
-- Gateway models query.pb.gw.go and the clients of query.pb.go and tx.pb.go in x/bps/types: `serve_local` and
--   `serve_client` are the two handlers of a GET, over the runtime of Gateway/Sdk. A mux is a pointer,
--   and its routes what changes. Gateway/Answers and Gateway/EndToEnd are about what is written.
-- BpsModule models what x/bps/module has beside the genesis: `provide_outputs` is ProvideModule, around
--   the keeper, `register_services` RegisterServices, and so on. BpsModule/Provided is about the
--   services of a module that was provided.
-- Account models app/genesis_account.go.
-- Export models app/export.go: `prep_for_zero_height_genesis` is prepForZeroHeightGenesis, in the parts
--   that its loops make, and `export_app_state_and_validators` is ExportAppStateAndValidators. The
--   keepers of Export/Sdk are parameters over one store; the block height of the context, which the
--   code sets to zero for a while, is an argument of the calls. Export/Passes and
--   Export/Validators are about the loops, Export/Reset about the whole preparation, Export/Result about what is returned.
-- App models app/ibc.go and New of app/app.go: `new` is New, `register_ibc_modules` is
--   registerIBCModules, over the runtime and the constructors of App/Sdk. App/Stores is about the
--   stores of the IBC modules. App/Console models RegisterAPIRoutes and docs/docs.go, over the router
--   and the templates.
-- Root models cmd/bpsd/cmd/root.go and config.go, initRootCmd of commands.go and RegisterIBC of
--   app/ibc.go: `new_root_cmd` is NewRootCmd, in the parts `prepare_root` and `root_of`, over cobra and
--   the client context of Root/Sdk. A map is a function of names. Root/Modules is about the modules
--   of IBC on the side of the client.
-- Commands models newApp and appExport of cmd/bpsd/cmd/commands.go, over App and Export.
-- InPlace models cmd/bpsd/cmd/testnet.go: `get_command_args` is getCommandArgs, `init_app_for_testnet`
--   is initAppForTestnet in parts, `new_testnet_app` newTestnetApp. An error that ends the program is
--   an `err`. InPlace/Clearing and InPlace/Only are about the old validators and the new
--   one, InPlace/Funding about the accounts.
-- MultiNode models cmd/bpsd/cmd/testnet_multi_node.go: Args reads the flags, Nodes is a round of the
--   loop over the nodes, Genesis is initGenFiles and collectGenFiles, Files the helpers on paths and
--   files, and Testnet puts them together as initTestnetFiles does. The file system with the keyrings
--   is the state; paths are the platform's. The configurations, which the code changes through
--   pointers, are handed from round to round. MultiNode/Peers is about the loop
--   over the nodes, Copies about the contents of the files that are copied, and Ports, Removal and
--   Supply about the rest.
-- Wiring models the lists of app/app_config.go, and GetMaccPerms and BlockedAddresses of app/app.go. The
--   names of the modules are constants of other packages, so the texts are a parameter.
-- Base has the shared helpers: Boolean tests, lists and integers over the native numbers, bits, and
--   how a Go function ends, loops and iterators (Base/Go, Base/Passes), what a
--   function yields and keeps (Base/Yields, Base/Keeps), and texts.
--
-- Bounds: a varint is written in ten rounds, which are enough for 64 bits, and bit lengths are
-- counted in 64. The loop of Unmarshal runs on as many rounds as there are bytes, and that of skip
-- on one more; a loop that has no round left ends as `stuck`, which is no end of the Go code.
--
-- Not modelled: the accessors of the application and the prefixes of addresses (app/app.go,
-- app/config.go), the declarations of the two testnets' commands, which the tree of commands takes
-- as arguments, and main, the descriptors of the messages and services, and
-- the client application: they hand over objects of the SDK. That a context is cancelled and a
-- connection closed in the end is left out of the gateway. The upgrade that an
-- in-place testnet is to trigger is read and left alone by the code. Gas, the rollback of a failed
-- transaction and the clock are the SDK's.
pub mod Account
pub mod App
pub mod Base
pub mod BpsModule
pub mod Mint
pub mod MultiNode
pub mod Commands
pub mod Export
pub mod Gateway
pub mod Root
pub mod InPlace
pub mod Keeper
pub mod Service
pub mod Wire
pub mod Wiring
