-- ===== src/Lib.antt =====
-- Verification of the Arupa kernel (package arupa, under internal/ and cmd/).
--
-- The kernel is an HTTP host for services. Every service is an instance (internal/service/instance)
-- that is attached to the binding controller (internal/service/binding). Through the controller it
-- declares transports (how a request reaches it: its own connection, a static directory, a reverse
-- proxy) and routes (which requests it gets). The transports stand in one registry
-- (internal/service/transport), the routes in another (internal/service/route), which is also the
-- table that the data plane looks requests up in. Package netx has the path patterns that access
-- rules and service routes share; package auth decides who may use what and keeps the sessions;
-- package conf keeps the configuration, from which auth takes the groups of a user. Services share a
-- key value store (internal/service/host) with the kernel.
--
-- Which file models what:
--   Base, Base/*               Go's maps, results, tests and integers, and lemmas on them.
--   Strings, Strings/*         the functions of Go's strings package that the kernel calls.
--   Netx/Path                  internal/netx/path.go: ValidatePathPattern, ParseMethodPathPattern,
--                              FormatMethodPathPattern, MethodMatchRank, MatchPathPattern,
--                              MatchMethodPathPattern.
--   Auth/Policy                internal/auth/policy.go: Check, HasAnyGroup, UserForUsername.
--   Auth/RouteAccess           internal/auth/middleware.go: matchRouteAccess and the decision of
--                              RouteAccess.
--   Auth/Sessions              internal/auth/manager.go: GenerateToken, CreateSession,
--                              ValidateSession, DeleteSession, AuthenticateRequest.
--   Conf/Types, Conf/Services  internal/conf/types.go and services.go; Services/Checksum and
--                              Services/Resolving say what a checksum is and what a parameter
--                              resolves to, without reference to the code.
--   Conf/Pointer               internal/conf/update.go: JoinPath and parsePointer.
--   Conf/Heap                  Go maps that several holders share, by address; the clone functions.
--   Conf/Editor, Conf/Editor/* internal/conf/update.go: configEditor and the loop of Update. Maps has
--                              what applyUsers, applyGroups, applyRoute, applyPages and applyParams
--                              share, Services has applyServices and applyServiceField, Apply has
--                              apply and the loop.
--   Conf/Groups                internal/conf/conf.go: indexGroupsByUser.
--   Conf/Keys, Conf/Validate   internal/conf/conf.go: validTOMLKey; validateConfig and its parts.
--   Conf/Store, Conf/Store/*   internal/conf/conf.go: configState, publishLocked, readConfigLocked,
--                              decodeConfig, reloadLocked, LoadConfig; internal/conf/update.go: Update.
--                              Equal has reflect.DeepEqual on configurations, Place the
--                              configuration in memory and as a value.
--   Service/Spec               internal/service/spec/types.go: the declarations.
--   Service/Instance           internal/service/instance/instance.go: the state of an instance;
--                              Close, Revoke, AddTransport, RemoveTransport, AddRoute, RemoveRoute.
--   Service/Filepath           the functions of Go's path/filepath that transports use.
--   Service/Transport          internal/service/transport/registry.go: Register, Unregister, Lookup,
--                              RemoveOwner; Transport/Prepare has prepare, resolveStaticSource and
--                              NewProxyHandler.
--   Service/Route              internal/service/route/registry.go: Unregister, RemoveOwner,
--                              UsesTransport; Route/Register has Reserve, Register and
--                              registerHTTPLocked, Route/Match has matchHTTP; Route/Valid is what
--                              holds of the table between two operations.
--   Service/Binding            internal/service/binding/controller.go: Attach, Detach and the four
--                              registrations, over both registries and the instances;
--                              Binding/Reachable has the controllers that they lead to,
--                              Binding/Spaced transports whose id has white space around it.
--   Service/Host               internal/service/host/store.go: the key value store; Host/Access has
--                              sequences of calls on it.
--   */Examples                 runs at concrete inputs.
--
-- How the code is represented. A Go string is the list of its bytes. A Go map is an association list
-- in the order in which a loop over it happens to meet the keys; the theorems quantify over the list,
-- so over every order. An error is a constructor that stands for its text. A pointer that may be nil
-- is an Option; an instance is known by its address, a number, and the controller holds the function
-- from addresses to instances. A lock is held for a whole operation, so that an operation is one step.
-- In the editor of the configuration a map is an address in a memory that holds the maps of each Go
-- type in a list, nil is no address, and a new map gets the next address; the slices in these maps are
-- values, since nobody writes to them. A time is a number of nanoseconds. strings.ToUpper and
-- strings.ToLower change ASCII letters only, which is what they do on ASCII texts. strings.TrimSpace
-- removes the white space of Unicode in UTF-8. All loops are over lists, so no function needs fuel.
--
-- Parameters: the Socket.IO bridge behind the routes is a record of its three operations over a state
-- of its own (Route/Socket); the file system and the connections of the instances are the record World
-- (Transport/Prepare); the TOML decoder, the document of the configuration file
-- (internal/conf/toml_document.go), which Update edits along with the configuration, and what is done
-- with files are the record Library (Conf/Store); each read of the clock and of the random source is
-- an argument of the call that makes it (Auth/Sessions); the lookup of environment variables is a
-- function (Conf/Services). The level names of package log/slog and the numbers of strconv are written
-- out from their documentation (Conf/Validate).
--
-- Not modelled: the writing of HTTP responses and cookies, logging, the gRPC and WASM adapters, the
-- getters of the configuration, the document of its file, the supervisor, the catalog, the Socket.IO
-- bridge itself, the host's API over the key value store, and the web handlers.
pub mod Base
pub mod Strings
pub mod Netx
pub mod Auth
pub mod Conf
pub mod Service
