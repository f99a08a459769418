-- ===== src/Notebook.antt =====
-- client_server: the notebook client. A document is a tree of cells (DataCell.hh, the DTree), which
-- only actions change (Actions.cc), queued and undone by DocumentThread.cc.
-- A tree iterator is the address of a node: an address that is not in the document any more is a
-- dangling iterator, and using one is undefined behaviour, as is an exception that nobody catches;
-- both end in `none`. What the code asks of the GUI is kept as a list of calls, newest first.
pub mod Cells
pub mod Actions
pub mod Moves
pub mod Thread
pub mod Lens
pub mod Text
pub mod Added
pub mod AddUndo
pub mod Undo
pub mod Help
mod Tests
mod HelpTests
