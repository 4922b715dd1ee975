-- ===== src/Lib.antt =====
-- The panel of ui/src, a React application that administers WireGuard peers on MikroTik routers:
-- the parts of it that decide something, as executable definitions, and what is proved of them.
--
-- The parts and their files:
--
-- - Js: the JavaScript that the source relies on, over texts as lists of UTF-16 code units: split,
--   trim, includes, endsWith, decimal printing and parseInt.
-- - Zod: values of JSON, the syntax of the schemas, and zod as a parameter: the record `Zod` has
--   one assumption for each combinator, which says what its documentation says. Zod/Reference.antt
--   is a function that meets them all.
-- - Schema: the schemas of ui/src/schema, file by file.
-- - Auth: the session. Store.antt is ui/src/stores/authStore.ts, with the cookie jar of js-cookie
--   as the parameter `Cookies` (Jar.antt is one); Requests.antt is the interceptor of ui/src/api/axios-instance.ts;
--   Errors.antt is ui/src/main.tsx and ui/src/utils/handle-server-error.ts, with the toasts and the
--   navigations as lists in the state; SignIn.antt is what signs in and out.
-- - Api: the functions of ui/src/api. A call sends requests to a backend, which is a function from
--   requests to outcomes, and returns the requests with its own outcome, a value or what it throws.
-- - Hooks: the hooks of ui/src/hooks: key, call and enabling of each query, call and invalidated
--   keys of each mutation. The query client is the parameter `QueryClient`; its default
--   `onError` of ui/src/main.tsx is part of `mutate`.
-- - Peers: the bandwidth field, the sessions dialog (Sessions.antt the durations and the tabs,
--   Sessions/View.antt what is shown), the dialog of the configuration (Config.antt) and the field
--   of the traffic limit (TrafficInput.antt) of ui/src/features/peers.
-- - Forms: the forms of ui/src/features that create and change peers, interfaces and servers, the
--   defaults of a new peer, the choice of an interface (Select.antt), the button that makes a name
--   (RandomName.antt), the fields that are drawn (Drawn.antt), and the share dialog.
-- - Tables: the columns of the four tables, the comparison of addresses, the filters with their menu
--   (Facets.antt), the pages (Pages.antt, with the table of @tanstack/react-table as the parameter
--   `PagedTable`), and the switches in the first column.
-- - Dialogs: Rows.antt and Pages.antt are the providers, menus, buttons and dialogs of the four
--   features with a table, as a step relation over the open dialog, the current row, the pending
--   callbacks and the requests that wait for their answers; Deletion, Selection and Resets are
--   single dialogs, Submitted.antt is what the submission of a selection leads to, and Boxes.antt
--   is what those of the synchronisation draw.
-- - Pools: the form of an address pool, and the interface that it holds (Choice.antt).
-- - Share: the page of a shared link, ui/src/features/share: its cards, and which queries it sends.
-- - Dashboard: the cards and the charts of ui/src/features/dashboard, up to what they draw.
-- - Appearance: the theme of ui/src/context/theme-context.tsx, the font of
--   ui/src/context/font-context.tsx, the classes of the page, and the form and the menu that choose
--   them (Preferences.antt).
-- - Layout: the sidebar, the command menu and the other links, the active entry, the initials of a
--   user, and the navigation of the settings (SettingsNav.antt).
--
-- Components of React are state records with one function for each handler and one for each
-- effect; a step of the component is the handler followed by the effects that its change triggers.
-- Numbers of JavaScript are natural numbers or integers where the source has integers, and an
-- option of them where NaN can come up. All loops are structural; there is no fuel, but for the
-- printing of decimals, whose fuel is the number itself and one more, and for the loop that makes a
-- random name, for which more than ten is enough.
--
-- What a component draws is modelled where it depends on its data, as a value that names what is
-- shown and its texts; markup and styles are left out. A callback of setTimeout is counted in the
-- state, and running it is a step.
--
-- Not modelled: the Go server in api (it is the backend that answers), markup, the drawing of the
-- charts, floating-point formatting, the router (only the addresses it knows), the copies of
-- shadcn/ui in ui/src/components/ui, and the call exportTrafficExcel of ui/src/api/peers.ts, which
-- builds a download in the page.
pub mod Js
pub mod Zod
pub mod Schema
pub mod Auth
pub mod Api
pub mod Peers
pub mod Hooks
pub mod Tables
pub mod Dialogs
pub mod Share
pub mod Dashboard
pub mod Pools
pub mod Layout
pub mod Forms
pub mod Appearance
pub mod Prelude
