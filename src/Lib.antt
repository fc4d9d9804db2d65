-- ===== src/Lib.antt =====
-- Models of the system programs of this repository, and what they guarantee.
--
-- The programs are independent of each other:
--   Copier    HW5/program.c, a parallel copier of directories. A traversing thread puts tasks into a
--             circular buffer, worker threads take and carry them out, and a hash table counts the
--             files by extension.
--   Bibo      Midterm_HW3/biboServer.c and Midterm_HW3/biboClient.c, a server that forks a child for
--             each client, with slots in shared memory, a queue for the clients that wait, and the
--             commands of a client.
--   BibakBox  Final_HW6/BibakBOXServer.c and Final_HW6/BibakBOXClient.c, a server that mirrors the
--             directory of its clients.
--   Shell     HW2/terminal.c, a shell for commands that are joined by pipes.
--   Dup       HW1/my_dup.c, dup and dup2 made of fcntl.
--   Append    HW1/appendMeMore.c, a program that adds bytes to a file, for several processes at once.
-- Base holds the names that all of them share, and Descriptors what Shell and Dup rely on of the
-- kernel: a record of its calls with the laws that POSIX states, which the definitions take as a
-- parameter. Descriptors/Opening adds open, on which Shell and Copier/CopyFile rely.
-- Descriptors/Table is a table that keeps these laws.
--
-- Files and the code they are about:
--   Base/Tests, Base/Lists    Boolean tests on numbers; arrays as lists.
--   Base/Text                 strcmp, strncmp, strrchr, strtok, isspace, and printing of numbers.
--   Base/Decimal              the digits that are printed for a number.
--   Base/Int                  int with its wrap-around, and signed differences.
--   Base/Bytes                the bytes of integers in memory.
--   Copier/FileNames          the type of a file, in traverse_directory, and getLastFolder.
--   Copier/HashTable          hash, create_node, insert, get, their use in traverse_directory, and the
--                             report of main. Lookup, Counts and Register follow one registration, Measure
--                             and Report the whole table. Destroy is destroyHashtable on the memory in
--                             which the table lies, with Freed about one chain and Whole about all of it.
--   Copier/TaskBuffer         add_task_to_buffer and the start of process_task_from_buffer. Fifo
--                             compares the buffer with a list of tasks.
--   Copier/Pool               worker_thread, the waits of add_task_to_buffer, and main behind
--                             pthread_create, as a step relation on the whole program. Invariant and
--                             Order are kept by every step; Blocking has the runs that get stuck.
--   Copier/Traversal          the walk of traverse_directory. Handed is about the files that it hands
--                             over to the pool, Counted about the table of types behind it.
--   Copier/Setup              the choice of the destination and the elapsed time, in main.
--   Copier/CopyFd             copy_fd against a kernel that may read and write less than asked.
--                             Bytes states what arrives.
--   Copier/CopyFile           copy_file, which nothing calls.
--   Bibo/Queue                initializeQueue, isFull, isEmpty, enqueue, dequeue.
--   Bibo/Slots                add_client, remove_client, and the slots in signal_handler2.
--   Bibo/Server               create_shared_struct, send_notification, the loop of main and the
--                             children, as a step relation. Invariant holds in every reachable state;
--                             Waiting follows clients that wait.
--   Bibo/ReadFile             readF: Lines is about one line, Whole about a whole file.
--   Bibo/Requests             help, list and the dispatch of handle_client.
--   Bibo/Client               the main of biboClient.c behind the opening of its FIFOs, and the loop of
--                             handle_client. Conversation sets them against each other.
--   Bibo/Arrivals             the FIFO of the server between sem_wait and sem_post of its clients and its
--                             own two reads, as a step relation. Holders is about who holds the
--                             semaphore, Order about the numbers that the server reads, and
--                             Split has a request that is taken apart.
--   Bibo/FifoNames            the names of the FIFOs of a client.
--   BibakBox/Paths            remove_base_path, configure_path, create_folder_structure, and the rule
--                             of handle_create.
--   BibakBox/Wire             recv, and the loop that receives a name.
--   BibakBox/Messages         createdDetected, deletedDetected, updateDetected.
--   BibakBox/Handlers         handle_create, handle_delete, handle_update. Replies sets them against
--                             the messages, Data is about the bytes of a file.
--   BibakBox/Thread           the loop of thread_function. Rounds is about single rounds.
--   BibakBox/Tracking         saveFileModificationTimes, check_create, check_delete and
--                             remove_file_from_path. Scan is about the files that are collected,
--                             Missing about the file that is reported.
--   BibakBox/Clients          the slots of client_pool and the accepting loop of main.
--   BibakBox/Listing          getDirectoryContents, sendDirectoryContents and sendFile.
--   BibakBox/Updates          check_update. Kept is about the file that it reports, Reported about all of
--                             them.
--   BibakBox/Watch            the loop of checkFileModificationTimes over several rounds. Calm is about
--                             rounds in which nothing has changed, Created about files that come and go,
--                             Renamed about one that is renamed, and Served about the server behind it.
--                             A round that uses an array that has been freed is where the model ends.
--   BibakBox/Clearing         clearDirectory.
--   BibakBox/FirstCopy        receiveDirectoryContents, addStringToArray, createSameDirectoryStructure
--                             and saveFile. Entries is about the list, Saved about the files on their
--                             way, Folders and Mirror about the folders and files that the client ends with,
--                             and Start about all that a connection carries before the first message.
--   Shell/Parse               fgets, the loops over strtok, and trim. Reading is about the lines that
--                             are read whole; Trimmed, Tokens and Lines go from a command to a line.
--   Shell/Redirect            the search for redirections and the command in the log. Files is about
--                             the files that are found, Logged about the log.
--   Shell/Pipes               what a child and the parent do with the pipes. Ends is about the ends that
--                             are kept, Wiring about the descriptors that a child is left with.
--   Shell/Child               a child from fork to execvp. Files is about its standard input and output,
--                             Names about the name of its log.
--   Shell/Wait                handle_sigchld and the loop over waitpid, as a step relation. Reports is about
--                             what is printed, Ending about the end of the loop, and Stale has an order
--                             of events in which nothing printed is right.
--   Shell/Line                a round of the loop of main. Children is about all children of a line.
--   Dup                       mydup and mydup2. Against compares with dup2. Main is main, with Steps about
--                             its parts and Shared about the whole.
--   Append                    write_bytes_to_file in several processes, as a step relation. Bytes and
--                             Appending are about every run, Lockstep has one that loses bytes. Main is
--                             main, for one process alone.
-- A module named Tests beside them runs the definitions at concrete inputs.
--
-- How state and operations correspond: globals that belong together are one record and a function that
-- changes them takes and returns it. Threads and processes are a step relation, in which a critical
-- section or a single access to shared memory is one step. C strings are lists of bytes; what a
-- function reads from memory that it has not written is an argument. A recv, read or write that may
-- handle fewer bytes than asked is given the pieces in which bytes come or the counts that the kernel
-- returns. A FIFO to or from a child of the Bibo server is the pieces that a reader finds, and one to
-- its main process is the integers in it.
--
-- Bounds and fuel: arrays keep their sizes and the tests that the code makes of them. The loops of
-- pieces, strtok, printing and the name of a file run on fuel that is the length of the text or the
-- number of bytes still to come, of which every round takes at least one; the loop that receives a
-- file takes its number of rounds from the theorem that runs it, since it may never end. The loops of
-- biboClient.c and handle_client run on the number of statuses and messages, with one to spare, and that
-- of destroyHashtable on more than the length of the longest chain.
--
-- Not modelled: printing, sockets, signals and directories as such, calls that fail where the program
-- exits, and the code that only sets the programs up: their arguments, FIFOs, semaphores and sockets.
-- Also writeF, upload and download of biboServer.c, which are empty, and execvp in HW2/terminal.c.
pub mod Base
pub mod Descriptors
pub mod Copier
pub mod Bibo
pub mod BibakBox
pub mod Dup
pub mod Append
pub mod Shell
