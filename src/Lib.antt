-- ===== src/Lib.antt =====
-- Cadabra is a computer algebra system for field theory. This library models its core on
-- expression trees, and the notebook client's document with its actions and its link to the server.
--
-- Parts, and how they interact:
-- - Base: names from the libraries, Boolean tests, lists, byte strings, chains of Option steps.
-- - Tree: the trees of core/tree.hh and client_server/tree.hh, as forests.
-- - Storage (core/Storage.hh, core/Storage.cc): the nodes `str_node` of an expression `Ex`, with the
--   tests on their names, the result state, the history and the numbering of equations.
-- - Cleanup (core/Cleanup.cc, core/Functional.cc): the simplification of single nodes,
--   `cleanup_productlike`, `cleanup_sumlike`, `push_down_multiplier` and `cleanup_numericalflat`, and
--   in Cleanup/Indices those of derivatives, deltas and components; a function takes the
--   node and its children in place of an iterator into the tree, and returns the Boolean with the new
--   node. Cleanup/Value defines the number that an expression stands for,
--   where every symbol is assigned a number.
-- - Compare (core/Compare.cc, core/Compare.hh): `subtree_compare` and the tests on it. A result is
--   `same`, `before` or `after` with 1 or 2 as `within` or `across`; the arguments that stay the same
--   on the way down are the settings, and the two levels are numbers with a sign.
-- - Algorithms (core/algorithms, core/Algorithm.cc): one node is rewritten. `flatten_sum`
--   (Algorithms/FlattenSum), `distribute` up to its cleanup (Algorithms/Distribute), `collect_terms`
--   without the push of a multiplier into the nodes above (Algorithms/CollectTerms), `sort_sum`
--   (Algorithms/SortSum), and the helpers that wrap a term into a product (Algorithms/Wrap).
-- - Preprocess (core/PreProcessor.hh, core/PreProcessor.cc): from infix notation to prefix text, on a
--   stack of levels: the tokens (Preprocess/Scan), the closing of levels (Preprocess/Unwind), and the
--   reading of the lines (Preprocess/Run).
-- - Parser (core/Parser.hh, core/Parser.cc): `string2tree`, which Parser/Input has from its input on:
--   the skip of comments, the preprocessor, and what the parser does with its output. Parser/State has
--   the variables and the tokens, Parser/Machine one function for each mode, and the loop; what is
--   left of the string stands for the position in it, and the path of open nodes for the iterator
--   `current_parent`.
-- - Notebook (client_server/Actions.cc, client_server/DataCell.hh, client_server/DocumentThread.cc):
--   the document of cells, the actions with `execute` and `revert`, the queue and the undo stack,
--   and in Notebook/Help the word at the cursor that help is asked on.
--   Iterators are addresses of nodes; what is undefined in the code, or throws, gives `none`.
-- - ComputeThread (client_server/ComputeThread.cc): the thread that talks to the server. An event is
--   a call of one of its handlers; what a handler calls in turn, in the document thread, the GUI, the
--   network library or the system, is written to a log. ComputeThread/RunningCells is the map of the
--   cells that run. Sessions begin at the state that the constructor leaves; what `run` does before the
--   network library takes over is an event too.
-- - Combinatorics (core/Combinatorics.hh): `ordersign`, the sign of a reordering, with a step of one;
--   in Combinatorics/Combinations, `permute` of `combinations`, where there are no weights and all that
--   is generated is stored. `nextstep` returns the vectors that it generates, in order; where an
--   assertion fails, `permute` says so.
--
-- Loops run over lists of siblings or over queues, by structural recursion. Fuel stands in these
-- loops: the recursion of `nextstep`, one unit for an entry of a vector and one for the end; the rounds
-- of `collect_terms`, one for each term; that of `string2tree`, one unit for a turn, whose turns do not
-- all read a character; that over the characters of a line in the preprocessor, one unit for a token;
-- and the last one of the preprocessor, which has a unit for each level of the stack. Parser/Reach
-- speaks of numbers of turns that lead from state to state.
-- Rational numbers are GMP's, which is not part of the repository: Storage/Multiplier has their
-- operations and laws as a parameter, filled by whole numbers in the tests; their order is a
-- parameter of the comparison. The GUI's answer to
-- `get_cursor_position` is a parameter too, and so are the answers of the registry of properties, the
-- addresses of names that hashes are made of, and what a new server process gives.
--
-- Not modelled: the registry of properties, the matching of patterns, the other algorithms, in those
-- that are modelled the cleanup of the result in `distribute` and `pushup_multiplier` in
-- `collect_terms`, printing, the bindings, the server and the GUI.
pub mod Base
pub mod Tree
pub mod Storage
pub mod Cleanup
pub mod Compare
pub mod Algorithms
pub mod Preprocess
pub mod Parser
pub mod Notebook
pub mod ComputeThread
pub mod Combinatorics
